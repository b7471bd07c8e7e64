-- ===== src/Org/Chains.antt =====
-- internal/core/org/graph.go: what Chain returns.
use mathlib.Core.List.{append_assoc, append-nil}
use aps.Base.{
  contains-append, ℕ, zero, suc, ◌+◌, ◌≤◌, String, true, false, ◌≡◌, ◌≢◌, ◌↔◌, refl, ap, ◌∙◌, subst,
  ◌⊎◌, inl, inr, Option, none, some, List, [], ◌∷◌, ◌++◌, length, lookup, has_key, contains,
  contains-times, times, length-le_of_times, Bool-cases, Option-cases, ◌==◌, if◌then◌else◌, arith,
  eq_iff,
}
use aps.Org.{Profile, Graph, ids_of, cycle_path_from, chain_from, chain_of, build}
use aps.Org.Graphs.{IsBuilt, build-IsBuilt}
use aps.Org.Walks.{Climbs, LinksTo, IsLoop, Climbs-unique, IsLoop-no_walk, LinksTo-append_one}

-- From the first place where the current ID stands in the chain, the links lead round to it.
cycle_path_from-IsLoop :
    (g : Graph) (cur : String) (chain : List Profile)
    → LinksTo g cur (ids_of chain)
    → contains (ids_of chain) cur ≡ true
    → (path : List String) × (cycle_path_from chain cur ≡ cur ∷ path) × IsLoop g (cur ∷ path)
unfolding cycle_path_from
cycle_path_from-IsLoop g cur [] links h = absurd (ground (arith, h))
cycle_path_from-IsLoop g cur (p ∷ chain) links h = elim (Bool-cases (p.id == cur)) [
  | inl here ↦
      let same : p.id ≡ cur = (eq_iff p.id cur).0 here in
      (
        ids_of chain,
        ground (arith, here, same),
        subst (λ x. LinksTo g cur (x ∷ ids_of chain)) same links,
      )
  | inr other ↦
      let (path, e, loop) =
        cycle_path_from-IsLoop g cur chain (tail_links p chain links) (ground (arith, other, h)) in
      (path, ground (arith, other, e), loop)
]
  where
    tail_links :
        (p : Profile) (chain : List Profile)
        → LinksTo g cur (ids_of (p ∷ chain))
        → LinksTo g cur (ids_of chain)
    tail_links p [] l = tt
    tail_links p (q ∷ chain) l = l.1

-- The state of the loop: the set holds the chain's IDs, known and once each, and the chain leads to `cur`.
record Inv (g : Graph) (visited : List String) (chain : List Profile) (cur : String) : Type 0 where
  same : (x : String) → contains visited x ≡ contains (ids_of chain) x
  once : (x : String) → times x visited ≤ (if has_key x g.by_id then 1 else 0)
  links : cur ≢ "" → LinksTo g cur (ids_of chain)

-- The loop ends: with the walk to the top, or with a loop in the graph and no walk.
Outcome : Graph → List Profile → String → Option (List Profile × Option (List String)) → Type 0
Outcome g chain cur result =
    ((rest : List Profile) × (result ≡ some (chain ++ rest, none)) × Climbs g cur rest)
    ⊎ ((c : List Profile) × (path : List String) × (result ≡ some (c, some path))
        × IsLoop g path
        × ((rest : List Profile) → Climbs g cur rest → ⊥))

ids_of-append_one :
    (chain : List Profile) (p : Profile) → ids_of (chain ++ p ∷ []) ≡ ids_of chain ++ p.id ∷ []
ids_of-append_one [] p = refl
ids_of-append_one (q ∷ chain) p = ap (λ l. q.id ∷ l) (ids_of-append_one chain p)

Inv-step :
    (g : Graph) (visited : List String) (chain : List Profile) (cur : String) (p : Profile)
    → IsBuilt g
    → Inv g visited chain cur
    → cur ≢ ""
    → lookup cur g.by_id ≡ some p
    → contains visited cur ≡ false
    → Inv g (cur ∷ visited) (chain ++ p ∷ []) p.reports_to
Inv-step g visited chain cur p built h here found new =
    let at : p.id ≡ cur = built.keyed cur p found in
    record {
      same = λ x.
          rw (ids_of-append_one chain p)
            (ground (arith, at, h.same x, contains-append (ids_of chain) (p.id ∷ []) x));
      once = λ x. ground (arith, h.once x, found, new, contains-times visited cur, eq_iff cur x);
      links = λ real. rw (ids_of-append_one chain p) (
          rw at (
            LinksTo-append_one g cur p.reports_to (ids_of chain) (h.links here)
              (ground (arith, found, real, eq_iff p.reports_to ""))));
    }

Inv-room :
    (g : Graph) (visited : List String) (chain : List Profile) (cur : String)
    → IsBuilt g
    → Inv g visited chain cur
    → length visited ≤ length g.ids
Inv-room g visited chain cur built h =
    length-le_of_times visited g.ids (λ x. ground (arith, h.once x, built.known x))

-- The walk from a profile is the profile, and the walk from its manager.
Outcome-step :
    (g : Graph) (chain : List Profile) (cur : String) (p : Profile)
    (r : Option (List Profile × Option (List String)))
    → cur ≢ ""
    → lookup cur g.by_id ≡ some p
    → Outcome g (chain ++ p ∷ []) p.reports_to r
    → Outcome g chain cur r
unfolding Outcome
Outcome-step g chain cur p r here found (inl (rest, e, climb)) = inl (
  p ∷ rest,
  e ∙ ap (λ l. some (l, none)) (append_assoc chain (p ∷ []) rest),
  (here, found, climb),
)
Outcome-step g chain cur p r here found (inr (c, path, e, loop, no_walk)) =
    inr (c, path, e, loop, none_here)
  where
    none_here : (rest : List Profile) → Climbs g cur rest → ⊥
    none_here [] (inl empty) = here empty
    none_here [] (inr unknown) = ground (arith, unknown, found)
    none_here (q ∷ rest) climb =
        let same : q ≡ p = ground (arith, found, climb.1) in
        no_walk rest (subst (λ t. Climbs g t.reports_to rest) same climb.2)

chain_from-Outcome :
    (fuel : ℕ) (g : Graph) (visited : List String) (chain : List Profile) (cur : String)
    → IsBuilt g
    → length visited + fuel ≡ length g.ids + 1
    → Inv g visited chain cur
    → Outcome g chain cur (chain_from fuel g visited chain cur)
unfolding chain_from Outcome
chain_from-Outcome zero g visited chain cur built e h =
    absurd (omega (arith, e, Inv-room g visited chain cur built h))
chain_from-Outcome (suc fuel) g visited chain cur built e h = elim (Bool-cases (cur == "")) [
  | inl top ↦ inl ([], simp top (ground (arith, append-nil chain)), inl ((eq_iff cur "").0 top))
  | inr real ↦
      let here : cur ≢ "" = ground (arith, real, eq_iff cur "") in
      elim (Option-cases (lookup cur g.by_id)) [
        | inl unknown ↦
            inl ([], simp (real, unknown) (ground (arith, append-nil chain)), inr unknown)
        | inr (p, found) ↦ elim (Bool-cases (contains visited cur)) [
          | inl again ↦
              let (path, at, loop) =
                cycle_path_from-IsLoop g cur chain (h.links here)
                  (ground (arith, again, h.same cur)) in
              inr (
                chain,
                cur ∷ path,
                simp (real, found, again) (ground (arith, at)),
                loop,
                λ rest climb. IsLoop-no_walk g cur path rest loop climb,
              )
          | inr new ↦
              simp (real, found, new)
                (Outcome-step g chain cur p
                  (chain_from fuel g (cur ∷ visited) (chain ++ p ∷ []) p.reports_to) here found
                  (chain_from-Outcome fuel g (cur ∷ visited) (chain ++ p ∷ []) p.reports_to built
                    (omega (arith, e)) (Inv-step g visited chain cur p built h here found new)))
        ]
      ]
]

chain_of-Outcome : (g : Graph) (id : String) → IsBuilt g → Outcome g [] id (chain_of g id)
unfolding chain_of
chain_of-Outcome g id built =
    chain_from-Outcome (length g.ids + 1) g [] [] id built (omega arith)
      (record { same = λ x. refl; once = λ x. ground arith; links = λ real. tt })

-- Chain returns a chain without an error exactly when it is the walk from the profile to the top.
pub chain_of_iff :
    (profiles : List Profile) (id : String) (c : List Profile)
    → (chain_of (build profiles) id ≡ some (c, none)) ↔ Climbs (build profiles) id c
unfolding Outcome
chain_of_iff profiles id c =
    let g = build profiles in
    let outcome = chain_of-Outcome g id (build-IsBuilt profiles) in
    (
      λ h. elim outcome [
        | inl (rest, e, climb) ↦ subst (Climbs g id) (ground (arith, h, e)) climb
        | inr (d, path, e, loop, no_walk) ↦ absurd (ground (arith, h, e))
      ],
      λ h. elim outcome [
        | inl (rest, e, climb) ↦ e ∙ ap (λ l. some (l, none)) (Climbs-unique g id rest c climb h)
        | inr (d, path, e, loop, no_walk) ↦ absurd (no_walk c h)
      ],
    )

-- Where there is no such walk, Chain returns a chain with a CycleError, and the path of the error is a loop: each
-- profile on it reports to the next, and the last to the first.
pub chain_of-IsLoop :
    (profiles : List Profile) (id : String)
    → ((c : List Profile) → ¬ Climbs (build profiles) id c)
    → (c : List Profile) × (path : List String) × (chain_of (build profiles) id
        ≡ some (c, some path))
      × IsLoop (build profiles) path
unfolding Outcome
chain_of-IsLoop profiles id none_up =
    elim (chain_of-Outcome (build profiles) id (build-IsBuilt profiles)) [
      | inl (rest, e, climb) ↦ absurd (none_up rest climb)
      | inr (d, path, e, loop, no_walk) ↦ (d, path, e, loop)
    ]
