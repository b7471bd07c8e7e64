-- ===== src/Org/Walks.antt =====
-- internal/core/org/graph.go: the walk from a profile to the top, and the loops on which there is none.
use aps.Base.{
  ◌<◌, String, ◌≡◌, ◌≢◌, refl, sym, ap, Option-cases, subst, ◌⊎◌, inl, inr, Option, none, some,
  List, [], ◌∷◌, ◌++◌, length, lookup, ◌==◌, if◌then◌else◌, arith, eq_iff,
}
use aps.Org.{Profile, Graph}

-- The ID of the manager, where the profile is known and names one.
abbrev pub boss : Graph → String → Option String
boss g x = elim (lookup x g.by_id) [
  | none ↦ none
  | some p ↦ if p.reports_to == "" then none else some p.reports_to
]

-- The profiles from `cur` to the top: to one without a manager, or whose manager is not known.
abbrev pub Climbs : Graph → String → List Profile → Type 0
Climbs g cur [] = (cur ≡ "") ⊎ (lookup cur g.by_id ≡ none)
Climbs g cur (p ∷ ps) = (cur ≢ "") × (lookup cur g.by_id ≡ some p) × Climbs g p.reports_to ps

-- Each ID of the path names the next as its manager, and the last one names `target`.
abbrev pub LinksTo : Graph → String → List String → Type 0
LinksTo g target [] = Unit
LinksTo g target (x ∷ []) = boss g x ≡ some target
LinksTo g target (x ∷ y ∷ path) = (boss g x ≡ some y) × LinksTo g target (y ∷ path)

-- A path from an ID round to itself.
abbrev pub IsLoop : Graph → List String → Type 0
IsLoop g [] = ⊥
IsLoop g (x ∷ path) = LinksTo g x (x ∷ path)

-- There is one walk at most.
pub Climbs-unique :
    (g : Graph) (cur : String) (c d : List Profile) → Climbs g cur c → Climbs g cur d → c ≡ d
Climbs-unique g cur [] [] h k = refl
Climbs-unique g cur [] (p ∷ d) h k = absurd (ends h)
  where
    ends : (cur ≡ "") ⊎ (lookup cur g.by_id ≡ none) → ⊥
    ends (inl e) = k.0 e
    ends (inr e) = ground (arith, e, k.1)
Climbs-unique g cur (p ∷ c) [] h k = absurd (ends k)
  where
    ends : (cur ≡ "") ⊎ (lookup cur g.by_id ≡ none) → ⊥
    ends (inl e) = h.0 e
    ends (inr e) = ground (arith, e, h.1)
Climbs-unique g cur (p ∷ c) (q ∷ d) h k =
    let same : p ≡ q = ground (arith, h.1, k.1) in
    let above : Climbs g p.reports_to d = subst (λ r. Climbs g r.reports_to d) (sym same) k.2 in
    let rest = Climbs-unique g p.reports_to c d h.2 above in ground (arith, same, rest)

-- A manager's ID is not empty.
pub boss-ne_empty : (g : Graph) (x y : String) → boss g x ≡ some y → y ≢ ""
boss-ne_empty g x y e = λ empty. ends (Option-cases (lookup x g.by_id)) empty
  where
    ends : (lookup x g.by_id ≡ none) ⊎ ((p : Profile) × (lookup x g.by_id ≡ some p)) → y ≡ "" → ⊥
    ends (inl unknown) empty = ground (arith, e, unknown)
    ends (inr (p, found)) empty = ground (arith, e, found, empty, eq_iff p.reports_to "")

-- A walk goes on at the manager, and is shorter there.
Climbs-boss :
    (g : Graph) (x y : String) (c : List Profile)
    → x ≢ ""
    → boss g x ≡ some y
    → Climbs g x c
    → (d : List Profile) × Climbs g y d × (length d < length c)
Climbs-boss g x y [] real e (inl empty) = absurd (real empty)
Climbs-boss g x y [] real e (inr unknown) = absurd (ground (arith, e, unknown))
Climbs-boss g x y (p ∷ c) real e h =
    let same : p.reports_to ≡ y = ground (arith, e, h.1) in
    (c, subst (λ z. Climbs g z c) same h.2, omega arith)

Climbs-LinksTo :
    (g : Graph) (target x : String) (path : List String) (c : List Profile)
    → x ≢ ""
    → LinksTo g target (x ∷ path)
    → Climbs g x c
    → (d : List Profile) × Climbs g target d × (length d < length c)
Climbs-LinksTo g target x [] c real links h = Climbs-boss g x target c real links h
Climbs-LinksTo g target x (y ∷ path) c real links h =
    let (d, above, shorter) = Climbs-boss g x y c real links.0 h in
    let (e, top, less) =
      Climbs-LinksTo g target y path d (boss-ne_empty g x y links.0) links.1 above in
    (e, top, omega (arith, shorter, less))

LinksTo-ne_empty :
    (g : Graph) (target x : String) (path : List String) → LinksTo g target (x ∷ path) → target ≢ ""
LinksTo-ne_empty g target x [] links = boss-ne_empty g x target links
LinksTo-ne_empty g target x (y ∷ path) links = LinksTo-ne_empty g target y path links.1

-- On a loop there is no walk to the top.
pub IsLoop-no_walk :
    (g : Graph) (x : String) (path : List String) (c : List Profile)
    → IsLoop g (x ∷ path)
    → Climbs g x c
    → ⊥
IsLoop-no_walk g x path c loop h =
    let (d, again, shorter) =
      Climbs-LinksTo g x x path c (LinksTo-ne_empty g x x path loop) loop h in
    omega (arith, shorter, ap (λ l. length l) (Climbs-unique g x c d h again))

pub LinksTo-append_one :
    (g : Graph) (x target : String) (path : List String)
    → LinksTo g x path
    → boss g x ≡ some target
    → LinksTo g target (path ++ x ∷ [])
LinksTo-append_one g x target [] links e = e
LinksTo-append_one g x target (y ∷ []) links e = (links, e)
LinksTo-append_one g x target (y ∷ z ∷ path) links e =
    (links.0, LinksTo-append_one g x target (z ∷ path) links.1 e)
