-- ===== src/Org/Tests.antt =====
-- internal/core/org/graph.go: a team of three with a loop beside it, and the theorems at them.
use aps.Base.{
  String, true, false, ◌≡◌, ◌≢◌, ◌↔◌, refl, none, some, List, [], ◌∷◌, inl, lookup, insert, sort_by,
  IsSortedBy, times, contains, ◌≤◌, ◌==◌, arith, eq_iff,
}
use aps.Org.{
  Profile, put_profiles, put_reports, build, manager, ids_of, cycle_path_from, chain_from, chain_of,
  direct_reports, visit_children, visit_frontier, levels_from, transitive_reports, roots,
}
use aps.Org.Walks.{Climbs, IsLoop, IsLoop-no_walk}
use aps.Org.Chains.{chain_of_iff, chain_of-IsLoop}
use aps.Org.Levels.{IsBelow}
use aps.Org.Reports.{transitive_reports_iff}

abbrev profile : String → String → Profile
profile id reports_to = record { id = id; reports_to = reports_to; type = "" }

abbrev ada : Profile
ada = profile "ada" ""

abbrev bob : Profile
bob = profile "bob" "ada"

abbrev cyd : Profile
cyd = profile "cyd" "bob"

abbrev yin : Profile
yin = profile "yin" "yang"

abbrev yang : Profile
yang = profile "yang" "yin"

-- `bob` is loaded twice.
abbrev profiles : List Profile
profiles = cyd ∷ yin ∷ profile "bob" "cyd" ∷ bob ∷ ada ∷ yang ∷ []

profiles_sorted : (build profiles).ids ≡ "ada" ∷ "bob" ∷ "cyd" ∷ "yang" ∷ "yin" ∷ []
unfolding build put_profiles put_reports lookup insert sort_by
profiles_sorted = refl

roots-profiles : roots (build profiles) ≡ ada ∷ []
unfolding roots build put_profiles put_reports lookup insert sort_by
roots-profiles = refl

bob_manager : manager (build profiles) "bob" ≡ some ada
unfolding manager build put_profiles put_reports lookup insert sort_by
bob_manager = refl

ada_direct : direct_reports (build profiles) "ada" ≡ bob ∷ []
unfolding direct_reports build put_profiles put_reports lookup insert sort_by
ada_direct = refl

yin_chain : chain_of (build profiles) "yin" ≡ some (yin ∷ yang ∷ [], some ("yin" ∷ "yang" ∷ []))
unfolding chain_of chain_from cycle_path_from build put_profiles put_reports lookup insert sort_by
yin_chain = refl

ada_reports : transitive_reports (build profiles) "ada" 1 ≡ some (bob ∷ [])
unfolding transitive_reports levels_from visit_frontier visit_children build put_profiles
    put_reports lookup insert sort_by
ada_reports = refl

yin_reports : transitive_reports (build profiles) "yin" 0 ≡ some (yang ∷ [])
unfolding transitive_reports levels_from visit_frontier visit_children build put_profiles
    put_reports lookup insert sort_by
yin_reports = refl

named : (s : String) → (s == "") ≡ false → s ≢ ""
named s h = λ e. ground (arith, h, e, eq_iff s "")

cyd-Climbs : Climbs (build profiles) "cyd" (cyd ∷ bob ∷ ada ∷ [])
unfolding build put_profiles put_reports lookup insert sort_by
cyd-Climbs = (named "cyd" refl, refl, (named "bob" refl, refl, (named "ada" refl, refl, inl refl)))

chain_of_iff_example : chain_of (build profiles) "cyd" ≡ some (cyd ∷ bob ∷ ada ∷ [], none)
chain_of_iff_example = (chain_of_iff profiles "cyd" (cyd ∷ bob ∷ ada ∷ [])).1 cyd-Climbs

yin-IsLoop : IsLoop (build profiles) ("yin" ∷ "yang" ∷ [])
unfolding build put_profiles put_reports lookup insert sort_by
yin-IsLoop = (refl, refl)

chain_of-IsLoop_example :
    (c : List Profile) × (path : List String) × (chain_of (build profiles) "yin"
      ≡ some (c, some path))
    × IsLoop (build profiles) path
chain_of-IsLoop_example =
    chain_of-IsLoop profiles "yin"
      (λ c climb. IsLoop-no_walk (build profiles) "yin" ("yang" ∷ []) c yin-IsLoop climb)

transitive_reports_iff_example :
    (out : List Profile) × (transitive_reports (build profiles) "ada" 0 ≡ some out)
    × IsSortedBy (λ p. p.id) out
    × ((x : String) → times x (ids_of out) ≤ 1)
    × ((x : String) → (contains (ids_of out) x ≡ true) ↔ IsBelow (build profiles) "ada" 0 x)
unfolding build put_profiles put_reports lookup insert sort_by
transitive_reports_iff_example = transitive_reports_iff profiles "ada" 0 refl
