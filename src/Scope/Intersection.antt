-- ===== src/Scope/Intersection.antt =====
-- internal/core/scope/scope.go: what the narrowing of rules lets through.
use aps.Base.{
  String, Bool, true, false, ◌&&◌, ◌≡◌, ◌≢◌, ◌↔◌, refl, Option, List, [], ◌∷◌, any, keep, All, ◌==◌,
  arith, eq_iff, subst, ap, ◌∙◌,
}
use aps.Scope.{
  Rule, Scope, no_rule, same_folded, allows_item, intersect_slices, intersect, narrow,
  intersect_all, collected, resolve,
}

-- The four lists of a rule that are compared by text.
pub data Dimension : Type 0 where
  by_operation by_tool by_secret by_network : Dimension

abbrev pub entries : Dimension → Rule → List String
entries by_operation r = r.operations
entries by_tool r = r.tools
entries by_secret r = r.secrets
entries by_network r = r.networks

keep-none : (p : String → Bool) (xs : List String) → All (λ x. p x ≡ false) xs → keep p xs ≡ []
keep-none p [] h = refl
keep-none p (x ∷ xs) h = ground (arith, h.0, keep-none p xs h.1)

module _ (to_lower : String → String) where
  abbrev is_in : List String → String → Bool
  is_in xs s = any (λ x. same_folded to_lower x s) xs

  -- Texts that fold alike are found alike.
  is_in-fold :
      (xs : List String) (s t : String) → same_folded to_lower s t ≡ true → is_in xs s ≡ is_in xs t
  is_in-fold xs s t h =
      subst (λ l. is_in xs s ≡ any (λ x. to_lower x == l) xs)
        ((eq_iff (to_lower s) (to_lower t)).0 h) refl

  is_in-keep :
      (p : String → Bool) (xs : List String) (s : String)
      → ((v : String) → same_folded to_lower v s ≡ true → p v ≡ p s)
      → is_in (keep p xs) s ≡ (is_in xs s && p s)
  is_in-keep p [] s e = refl
  is_in-keep p (x ∷ xs) s e = ground (arith, is_in-keep p xs s e, e x)

  allows_found :
      (xs : List String) (s t : String) → is_in xs t ≡ true → allows_item to_lower xs s ≡ is_in xs s
  unfolding allows_item
  allows_found [] s t h = ground (arith, h)
  allows_found (x ∷ xs) s t h = refl

  allows_item-intersect_slices :
      (a b : List String) (s common : String)
      → allows_item to_lower a common ≡ true
      → allows_item to_lower b common ≡ true
      → allows_item to_lower (intersect_slices to_lower a b) s
        ≡ (allows_item to_lower a s && allows_item to_lower b s)
  unfolding allows_item intersect_slices
  allows_item-intersect_slices [] b s c ha hb = refl
  allows_item-intersect_slices (x ∷ a) [] s c ha hb = ground arith
  allows_item-intersect_slices (x ∷ a) (y ∷ b) s c ha hb =
      let kept = is_in-keep (is_in (y ∷ b)) (x ∷ a) in
      let at_c = kept c (λ v. is_in-fold (y ∷ b) v c) in
      let at_s = kept s (λ v. is_in-fold (y ∷ b) v s) in
      allows_found (keep (is_in (y ∷ b)) (x ∷ a)) s c (ground (arith, ha, hb, at_c)) ∙ at_s

  -- A rule lets a text through in one of its lists.
  abbrev pub allows : Dimension → Rule → String → Bool
  allows d r s = allows_item to_lower (entries d r) s

  allows-no_rule : (d : Dimension) (s : String) → allows d no_rule s ≡ true
  unfolding allows_item
  allows-no_rule by_operation s = refl
  allows-no_rule by_tool s = refl
  allows-no_rule by_secret s = refl
  allows-no_rule by_network s = refl

  entries-intersect :
      (d : Dimension) (a b : Rule)
      → entries d (intersect to_lower a b) ≡ intersect_slices to_lower (entries d a) (entries d b)
  unfolding intersect
  entries-intersect by_operation a b = refl
  entries-intersect by_tool a b = refl
  entries-intersect by_secret a b = refl
  entries-intersect by_network a b = refl

  allows-intersect :
      (d : Dimension) (a b : Rule) (s common : String)
      → allows d a common ≡ true
      → allows d b common ≡ true
      → allows d (intersect to_lower a b) s ≡ (allows d a s && allows d b s)
  allows-intersect d a b s c ha hb =
      ap (λ l. allows_item to_lower l s) (entries-intersect d a b)
      ∙ allows_item-intersect_slices (entries d a) (entries d b) s c ha hb

  allows-narrow :
      (d : Dimension) (result : Rule) (rules : List Rule) (s common : String)
      → allows d result common ≡ true
      → All (λ r. allows d r common ≡ true) rules
      → (allows d (narrow to_lower result rules) s ≡ true)
        ↔ ((allows d result s ≡ true) × All (λ r. allows d r s ≡ true) rules)
  unfolding narrow
  allows-narrow d result [] s c h hs = (λ e. (e, tt), λ e. e.0)
  allows-narrow d result (r ∷ rules) s c h hs =
      let here = allows-intersect d result r in
      let later =
        allows-narrow d (intersect to_lower result r) rules s c (ground (arith, here c c h hs.0))
          hs.1 in
      ground (arith, here s c h hs.0, later)

  allows-intersect_all :
      (d : Dimension) (rules : List Rule) (s common : String)
      → All (λ r. allows d r common ≡ true) rules
      → (allows d (intersect_all to_lower rules) s ≡ true) ↔ All (λ r. allows d r s ≡ true) rules
  unfolding intersect_all
  allows-intersect_all d [] s c hs = (λ _. tt, λ _. allows-no_rule d s)
  allows-intersect_all d (r ∷ rules) s c hs = allows-narrow d r rules s c hs.0 hs.1

  -- Where some text passes every collected rule in one of the lists compared by text, the effective rule lets
  -- through exactly the texts that every rule lets through there.
  pub allows-resolve :
      (d : Dimension) (profile : Option Scope) (squads : List Scope) (workspace : Option Scope)
      (s common : String)
      → All (λ r. allows d r common ≡ true) (collected to_lower profile squads workspace)
      → (allows d (resolve to_lower profile squads workspace) s ≡ true)
        ↔ All (λ r. allows d r s ≡ true) (collected to_lower profile squads workspace)
  unfolding resolve
  allows-resolve d profile squads workspace s c hs =
      allows-intersect_all d (collected to_lower profile squads workspace) s c hs

  -- Where two lists have entries and no entry of the one is an entry of the other, whatever the case of the
  -- letters, their intersection lets everything through.
  pub disjoint_unrestricted :
      (a b : List String) (s : String)
      → a ≢ []
      → b ≢ []
      → All (λ x. any (λ w. same_folded to_lower w x) b ≡ false) a
      → allows_item to_lower (intersect_slices to_lower a b) s ≡ true
  unfolding intersect_slices
  disjoint_unrestricted [] b s na nb h = absurd (na refl)
  disjoint_unrestricted (x ∷ a) [] s na nb h = absurd (nb refl)
  disjoint_unrestricted (x ∷ a) (y ∷ b) s na nb h =
      ap (λ l. allows_item to_lower l s) (keep-none (is_in (y ∷ b)) (x ∷ a) h)
      ∙ unfold allows_item in refl
