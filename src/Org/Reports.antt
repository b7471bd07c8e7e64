-- ===== src/Org/Reports.antt =====
-- internal/core/org/graph.go: which profiles TransitiveReports returns.
use aps.Base.{
  ℕ, zero, suc, ◌+◌, ◌≤◌, String, true, false, ◌&&◌, ◌≡◌, ◌↔◌, refl, sym, ap, ◌∙◌, ◌⊎◌, inl, inr,
  some, List, [], ◌∷◌, length, lookup, has_key, contains, contains-times, times, times-sort_by,
  sort_by, IsSortedBy, sort_by-IsSortedBy, Bool-cases, Option-cases, ltb, leb, arith, eq_iff,
  eq_refl,
}
use aps.Org.{
  Profile, Graph, ids_of, Sweep, visit_frontier, levels_from, sorted_reports, transitive_reports,
  build,
}
use aps.Org.Graphs.{IsBuilt, build-IsBuilt}
use aps.Org.Walks.{boss}
use aps.Org.Sweeps.{visit_frontier-Swept}
use aps.Org.Levels.{chief, IsBelow, listed_known, Inv, Inv-room, Inv-sweep}

module _ (g : Graph) (built : IsBuilt g) where
  chief-zero :
      (id : String) (n : ℕ) (x : String)
      → n ≤ 0
      → chief g n x ≡ some id
      → contains (id ∷ []) x ≡ true
  chief-zero id zero x le e = ground (arith, e, eq_iff id x)
  chief-zero id (suc n) x le e = absurd (omega (arith, le))

  Inv-start : (id : String) → has_key id g.by_id ≡ true → Inv g built id 0 (id ∷ []) (id ∷ []) []
  Inv-start id here = record {
    sound = λ x k. (0, omega arith, ground (arith, k, eq_iff id x));
    complete = chief-zero id;
    closed = λ x y k other e. absurd (ground (arith, k, other));
    placed = λ y k. k;
    reported = λ x. ground arith;
    once = λ x. ground (arith, here, eq_iff id x);
  }

  -- Without a frontier, the set has everything below `id`.
  Inv-all :
      (id : String) (level : ℕ) (visited : List String) (out : List Profile) (n : ℕ) (x : String)
      → Inv g built id level [] visited out
      → chief g n x ≡ some id
      → contains visited x ≡ true
  Inv-all id level visited out zero x h e = h.complete 0 x (omega arith) e
  Inv-all id level visited out (suc n) x h e = elim (Option-cases (boss g x)) [
    | inl top ↦ absurd (ground (arith, e, top))
    | inr (y, above) ↦
        h.closed x y (Inv-all id level visited out n y h (ground (arith, e, above))) refl above
  ]

  -- The result has each profile below `id` within the depth, once, and no other.
  abbrev HasBelow : String → ℕ → List Profile → Type 0
  HasBelow id depth out =
      (x : String)
      → (times x (ids_of out) ≤ 1) × ((contains (ids_of out) x ≡ true) ↔ IsBelow g id depth x)

  HasBelow-stop :
      (id : String) (depth level : ℕ) (frontier visited : List String) (out : List Profile)
      → Inv g built id level frontier visited out
      → (depth ≡ 0) ⊎ (level ≤ depth)
      → ((n : ℕ) (x : String)
          → (depth ≡ 0) ⊎ (n ≤ depth)
          → chief g n x ≡ some id
          → contains visited x ≡ true)
      → HasBelow id depth out
  HasBelow-stop id depth level frontier visited out h within all x = (
    ground (arith, h.reported x, h.once x),
    (
      λ k.
          let in_set : contains visited x ≡ true =
            ground
              (arith, k, h.reported x, contains-times (ids_of out) x, contains-times visited x) in
          let (n, le, e) = h.sound x in_set in
          (
            λ same.
                ground (
                  arith,
                  k,
                  same,
                  h.reported x,
                  h.once x,
                  contains-times (ids_of out) x,
                  eq_refl id,
                ),
            n,
            e,
            near n le within,
          ),
      λ (other, n, e, close). ground (
        arith,
        h.reported x,
        contains-times (ids_of out) x,
        contains-times visited x,
        all n x close e,
        other,
        eq_iff id x,
      ),
    ),
  )
    where
      near : (n : ℕ) → n ≤ level → (depth ≡ 0) ⊎ (level ≤ depth) → (depth ≡ 0) ⊎ (n ≤ depth)
      near n le (inl any_depth) = inl any_depth
      near n le (inr bounded) = inr (omega (arith, le, bounded))

  in_depth :
      (depth level n : ℕ)
      → (ltb 0 depth && leb depth level) ≡ true
      → (depth ≡ 0) ⊎ (n ≤ depth)
      → n ≤ level
  in_depth depth level n deep (inl any_depth) = absurd (ground (arith, deep, any_depth))
  in_depth depth level n deep (inr bounded) = ground (arith, deep, bounded)

  deeper :
      (depth level : ℕ)
      → (ltb 0 depth && leb depth level) ≡ false
      → (depth ≡ 0) ⊎ (level ≤ depth)
      → (depth ≡ 0) ⊎ (level + 1 ≤ depth)
  deeper depth level on (inl any_depth) = inl any_depth
  deeper zero level on (inr bounded) = inl refl
  deeper (suc depth) level on (inr bounded) = inr (ground (arith, on, bounded))

  -- Each level but the last puts an ID into the set, which has room for the profiles only.
  more_room :
      (fuel new old now : ℕ)
      → length g.ids + 2 ≤ suc fuel + old
      → now + 0 ≡ old + new
      → old ≤ length g.ids
      → (1 ≤ fuel) × ((new ≡ 0) ⊎ (length g.ids + 2 ≤ fuel + now))
  more_room fuel zero old now room grown bound = (omega (arith, room, bound), inl refl)
  more_room fuel (suc new) old now room grown bound =
      (omega (arith, room, bound), inr (omega (arith, room, grown)))

  levels_from-HasBelow :
      (fuel : ℕ) (id : String) (depth level : ℕ) (frontier visited : List String)
      (out : List Profile)
      → Inv g built id level frontier visited out
      → (depth ≡ 0) ⊎ (level ≤ depth)
      → (1 ≤ fuel) × ((length frontier ≡ 0) ⊎ (length g.ids + 2 ≤ fuel + length visited))
      → (result : List Profile) × (levels_from fuel g depth level frontier visited out
          ≡ some result)
        × HasBelow id depth result
  unfolding levels_from
  levels_from-HasBelow zero id depth level frontier visited out h within room =
      absurd (omega (arith, room.0))
  levels_from-HasBelow (suc fuel) id depth level [] visited out h within room = (
    out,
    refl,
    HasBelow-stop id depth level [] visited out h within
        (λ n x near e. Inv-all id level visited out n x h e),
  )
  levels_from-HasBelow (suc fuel) id depth level (cur ∷ rest) visited out h within
        (some_fuel, inl empty) =
      absurd (omega (arith, empty))
  levels_from-HasBelow (suc fuel) id depth level (cur ∷ rest) visited out h within
        (some_fuel, inr room) =
      elim (Bool-cases (ltb 0 depth && leb depth level)) [
        | inl deep ↦ (
          out,
          simp deep refl,
          HasBelow-stop id depth level (cur ∷ rest) visited out h within
              (λ n x near e. h.complete n x (in_depth depth level n deep near) e),
        )
        | inr on ↦
            let s : Sweep = record { visited = visited; out = out; next = [] } in
            let t = visit_frontier g s (cur ∷ rest) in
            let w =
              visit_frontier-Swept g s (cur ∷ rest) (λ y x k. (listed_known g built y x k).1) in
            let next = Inv-sweep g built id level (cur ∷ rest) visited out t h w in
            let (result, e, below) =
              levels_from-HasBelow fuel id depth (level + 1) t.next t.visited t.out next
                (deeper depth level on within)
                (more_room fuel (length t.next) (length visited) (length t.visited) room w.grown
                  (Inv-room g built id level (cur ∷ rest) visited out h)) in
            (result, simp on e, below)
      ]

sort_by-HasBelow :
    (g : Graph) (built : IsBuilt g) (id : String) (depth : ℕ) (out : List Profile)
    → HasBelow g built id depth out
    → HasBelow g built id depth (sort_by (λ p. p.id) out)
sort_by-HasBelow g built id depth out h x =
    let sorted = sort_by (λ p. p.id) out in
    let same : times x (ids_of sorted) ≡ times x (ids_of out) = times-sort_by (λ p. p.id) x out in
    let same_test : contains (ids_of sorted) x ≡ contains (ids_of out) x =
      contains-times (ids_of sorted) x
      ∙ ap (λ n. ltb 0 n) same
      ∙ sym (contains-times (ids_of out) x) in
    (rw same (h x).0, (λ k. (h x).1.0 (sym same_test ∙ k), λ k. same_test ∙ (h x).1.1 k))

built-transitive_reports :
    (g : Graph) (built : IsBuilt g) (id : String) (depth : ℕ) (p : Profile)
    → lookup id g.by_id ≡ some p
    → (out : List Profile) × (transitive_reports g id depth ≡ some (sort_by (λ p. p.id) out))
      × HasBelow g built id depth out
unfolding transitive_reports
built-transitive_reports g built id depth p found =
    let (out, e, below) =
      levels_from-HasBelow g built (length g.ids + 1) id depth 0 (id ∷ []) (id ∷ []) []
        (Inv-start g built id (ground (arith, found))) (inr (omega arith))
        (omega arith, inr (omega arith)) in
    (out, ground (arith, found, ap sorted_reports e), below)

-- TransitiveReports ends, for each list of profiles and each known ID, with a list that is in the order of the IDs, that
-- has no ID twice, and that has exactly the profiles other than this one from which a number of managers leads to
-- it: any number for the depth 0, else a number within the depth. This holds with loops among the managers too.
pub transitive_reports_iff :
    (profiles : List Profile) (id : String) (depth : ℕ)
    → has_key id (build profiles).by_id ≡ true
    → (out : List Profile) × (transitive_reports (build profiles) id depth ≡ some out)
      × IsSortedBy (λ p. p.id) out
      × ((x : String) → times x (ids_of out) ≤ 1)
      × ((x : String) → (contains (ids_of out) x ≡ true) ↔ IsBelow (build profiles) id depth x)
transitive_reports_iff profiles id depth here =
    let g = build profiles in
    let built = build-IsBuilt profiles in
    elim (Option-cases (lookup id g.by_id)) [
      | inl unknown ↦ absurd (ground (arith, here, unknown))
      | inr (p, found) ↦
          let (out, e, below) = built-transitive_reports g built id depth p found in
          let sorted = sort_by-HasBelow g built id depth out below in
          (
            sort_by (λ p. p.id) out,
            e,
            sort_by-IsSortedBy (λ p. p.id) out,
            λ x. (sorted x).0,
            λ x. (sorted x).1,
          )
    ]
