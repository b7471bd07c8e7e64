-- ===== src/Org/Levels.antt =====
-- internal/core/org/graph.go: what the levels of TransitiveReports have found.
use aps.Base.{
  ℕ, zero, suc, ◌+◌, ◌≤◌, String, true, false, ◌||◌, ◌≡◌, ◌≢◌, ◌↔◌, sym, ◌∙◌, ◌⊎◌, inl, inr, Option,
  none, some, List, [], ◌∷◌, length, lookup, has_key, contains, times, length-le_of_times,
  Bool-cases, Option-cases, ◌==◌, if◌then◌else◌, arith, eq_iff, eq_refl,
}
use aps.Org.{Profile, Graph, ids_of, profile_at, reports_in, Sweep}
use aps.Org.Graphs.{is_boss, IsBuilt}
use aps.Org.Walks.{boss}
use aps.Org.Sweeps.{Swept, reports_to_any}

-- The ID that is `n` managers above.
abbrev pub chief : Graph → ℕ → String → Option String
chief g zero x = some x
chief g (suc n) x = elim (boss g x) [ none ↦ none | some y ↦ chief g n y ]

-- A profile other than `id` from which it takes a number of managers to reach `id`, within the depth.
abbrev pub IsBelow : Graph → String → ℕ → String → Type 0
IsBelow g id depth x = (x ≢ id) × (n : ℕ) × (chief g n x ≡ some id) × ((depth ≡ 0) ⊎ (n ≤ depth))

module _ (g : Graph) (built : IsBuilt g) where
  is_boss-boss : (x y : String) → (is_boss g.by_id y x ≡ true) ↔ (boss g x ≡ some y)
  is_boss-boss x y = elim (Option-cases (lookup x g.by_id)) [
    | inl unknown ↦
        (λ h. ground (arith, h, unknown, eq_iff "" y, eq_iff y ""), λ h. ground (arith, h, unknown))
    | inr (p, found) ↦ (
      λ h. ground (arith, h, found, eq_iff p.reports_to y, eq_iff p.reports_to "", eq_iff y ""),
      λ h. ground (arith, h, found, eq_iff p.reports_to y, eq_iff p.reports_to "", eq_iff y ""),
    )
  ]

  reports_to_any-boss :
      (frontier : List String) (x : String)
      → reports_to_any g frontier x ≡ true
      → (y : String) × (contains frontier y ≡ true) × (boss g x ≡ some y)
  reports_to_any-boss [] x h = absurd (ground (arith, h))
  reports_to_any-boss (y ∷ frontier) x h = elim (Bool-cases (contains (reports_in g.reports y) x)) [
    | inl here ↦
        (y, ground (arith, eq_refl y), (is_boss-boss x y).0 (sym (built.listed y x) ∙ here))
    | inr other ↦
        let (z, placed, e) = reports_to_any-boss frontier x (ground (arith, h, other)) in
        (z, ground (arith, placed), e)
  ]

  boss-reports_to_any :
      (frontier : List String) (x y : String)
      → contains frontier y ≡ true
      → boss g x ≡ some y
      → reports_to_any g frontier x ≡ true
  boss-reports_to_any [] x y h e = absurd (ground (arith, h))
  boss-reports_to_any (z ∷ frontier) x y h e = ground (
    arith,
    h,
    built.listed y x,
    (is_boss-boss x y).1 e,
    eq_iff z y,
    boss-reports_to_any frontier x y,
  )

  pub listed_known :
      (y x : String)
      → contains (reports_in g.reports y) x ≡ true
      → (has_key x g.by_id ≡ true) × ((profile_at g.by_id x).id ≡ x)
  listed_known y x h = elim (Option-cases (lookup x g.by_id)) [
    | inl unknown ↦ absurd (ground (arith, h, unknown, built.listed y x, eq_iff "" y, eq_iff y ""))
    | inr (p, found) ↦ (ground (arith, found), ground (arith, found, built.keyed x p found))
  ]

  -- The state of the loop before a level: the set holds what is at most `level` managers below `id`, and what is
  -- outside the frontier has all its reports in the set.
  pub record Inv (id : String) (level : ℕ) (frontier visited : List String) (out : List Profile)
      : Type 0 where
    pub sound :
        (x : String) → contains visited x ≡ true → (n : ℕ) × (n ≤ level) × (chief g n x ≡ some id)
    pub complete :
        (n : ℕ) (x : String) → n ≤ level → chief g n x ≡ some id → contains visited x ≡ true
    pub closed :
        (x y : String)
        → contains visited y ≡ true
        → contains frontier y ≡ false
        → boss g x ≡ some y
        → contains visited x ≡ true
    pub placed : (y : String) → contains frontier y ≡ true → contains visited y ≡ true
    pub reported :
        (x : String) → times x (ids_of out) + (if id == x then 1 else 0) ≡ times x visited
    pub once : (x : String) → times x visited ≤ (if has_key x g.by_id then 1 else 0)

  pub Inv-room :
      (id : String) (level : ℕ) (frontier visited : List String) (out : List Profile)
      → Inv id level frontier visited out
      → length visited ≤ length g.ids
  Inv-room id level frontier visited out h =
      length-le_of_times visited g.ids (λ x. ground (arith, h.once x, built.known x))

  -- What is linked to the set is in the next set.
  Inv-link :
      (id : String) (level : ℕ) (frontier visited : List String) (out : List Profile) (x y : String)
      → Inv id level frontier visited out
      → contains visited y ≡ true
      → boss g x ≡ some y
      → (contains visited x || reports_to_any g frontier x) ≡ true
  Inv-link id level frontier visited out x y h in_set e = elim (Bool-cases (contains frontier y)) [
    | inl edge ↦ ground (arith, boss-reports_to_any frontier x y edge e)
    | inr old ↦ ground (arith, h.closed x y in_set old e)
  ]

  Inv-complete :
      (id : String) (level : ℕ) (frontier visited : List String) (out : List Profile) (n : ℕ)
      (x : String)
      → Inv id level frontier visited out
      → n ≤ level + 1
      → chief g n x ≡ some id
      → (contains visited x || reports_to_any g frontier x) ≡ true
  Inv-complete id level frontier visited out zero x h le e =
      ground (arith, h.complete 0 x (omega arith) e)
  Inv-complete id level frontier visited out (suc n) x h le e = elim (Option-cases (boss g x)) [
    | inl top ↦ absurd (ground (arith, e, top))
    | inr (y, above) ↦
        Inv-link id level frontier visited out x y h
          (h.complete n y (omega (arith, le)) (ground (arith, e, above))) above
  ]

  has_key-boss : (x y : String) → boss g x ≡ some y → has_key x g.by_id ≡ true
  has_key-boss x y e = elim (Option-cases (lookup x g.by_id)) [
    | inl unknown ↦ absurd (ground (arith, e, unknown))
    | inr (p, found) ↦ ground (arith, found)
  ]

  Inv-once :
      (id : String) (level : ℕ) (frontier visited : List String) (out : List Profile) (x : String)
      → Inv id level frontier visited out
      → (if contains visited x
          then times x visited
          else if reports_to_any g frontier x
          then 1
          else 0)
        ≤ (if has_key x g.by_id then 1 else 0)
  Inv-once id level frontier visited out x h = elim (Bool-cases (reports_to_any g frontier x)) [
    | inl new ↦
        let (y, edge, e) = reports_to_any-boss frontier x new in
        let known = has_key-boss x y e in ground (arith, h.once x, new, known)
    | inr old ↦ ground (arith, h.once x, old)
  ]

  pub Inv-sweep :
      (id : String) (level : ℕ) (frontier visited : List String) (out : List Profile) (t : Sweep)
      → Inv id level frontier visited out
      → Swept (reports_to_any g frontier) (record { visited = visited; out = out; next = [] }) t
      → Inv id (level + 1) t.next t.visited t.out
  Inv-sweep id level frontier visited out t h w =
      let from = reports_to_any-boss frontier in
      record {
        sound = λ x k. elim (Bool-cases (contains visited x)) [
          | inl old ↦ let (n, le, e) = h.sound x old in (n, omega (arith, le), e)
          | inr new ↦
              let (y, in_frontier, e) = from x (ground (arith, k, new, w.visited x)) in
              let (n, le, up) = h.sound y (h.placed y in_frontier) in
              (suc n, omega (arith, le), ground (arith, e, up))
        ];
        complete = λ n x le e. w.visited x ∙ Inv-complete id level frontier visited out n x h le e;
        closed = λ x y in_set not_next e.
            w.visited x
            ∙ Inv-link id level frontier visited out x y h
                (ground (arith, in_set, not_next, w.visited y, w.next y)) e;
        placed = λ y k. ground (arith, k, w.next y, w.visited y);
        reported = λ x. omega (arith, w.out x, h.reported x);
        once = λ x. rw (w.once x) (Inv-once id level frontier visited out x h);
      }
