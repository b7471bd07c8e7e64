-- ===== src/Org.antt =====
-- internal/core/org/graph.go: who reports to whom. A profile has the
-- fields that the graph reads. A set of texts (`map[string]bool`) is a list. The two loops that follow links run on
-- fuel, a round for each profile and one more. `depth` is a natural number: the source takes a negative one as 0.
pub mod Graphs
pub mod Walks
pub mod Chains
pub mod Sweeps
pub mod Levels
pub mod Reports
pub mod Tests
use aps.Base.{
  ℕ, zero, suc, ◌+◌, String, Bool, true, false, not, ◌&&◌, ◌||◌, Option, none, some, List, [], ◌∷◌,
  ◌++◌, map, keep, contains, length, Dict, lookup, insert, keys_of, sort_by, ltb, leb, ◌==◌,
  if◌then◌else◌,
}

pub record Profile : Type 0 where
  pub id : String
  pub reports_to : String
  pub type : String

-- `Profile{}`
abbrev pub no_profile : Profile
no_profile = record { id = ""; reports_to = ""; type = "" }

pub record Graph : Type 0 where
  pub by_id : Dict Profile
  pub reports : Dict (List String)
  pub ids : List String

-- `g.byID[id]`, the zero value for a missing key
abbrev pub profile_at : Dict Profile → String → Profile
profile_at by_id id = elim (lookup id by_id) [ none ↦ no_profile | some p ↦ p ]

-- `g.reports[id]`
abbrev pub reports_in : Dict (List String) → String → List String
reports_in reports id = elim (lookup id reports) [ none ↦ [] | some ids ↦ ids ]

-- The loop that fills `byID`.
unfoldable pub put_profiles : Dict Profile → List Profile → Dict Profile
put_profiles by_id [] = by_id
put_profiles by_id (p ∷ ps) = put_profiles (insert p.id p by_id) ps

abbrev pub report_one : Dict Profile → Dict (List String) → String → Dict (List String)
report_one by_id reports id =
    let mgr = (profile_at by_id id).reports_to in
    if mgr == "" then reports else insert mgr (reports_in reports mgr ++ id ∷ []) reports

-- The loop that fills `reports`.
unfoldable pub put_reports : Dict Profile → Dict (List String) → List String → Dict (List String)
put_reports by_id reports [] = reports
put_reports by_id reports (id ∷ ids) = put_reports by_id (report_one by_id reports id) ids

-- `Build`
unfoldable pub build : List Profile → Graph
build profiles =
    let by_id = put_profiles [] profiles in
    let ids = sort_by (λ id. id) (keys_of by_id) in
    record { by_id = by_id; reports = put_reports by_id [] ids; ids = ids }

-- `Manager`
unfoldable pub manager : Graph → String → Option Profile
manager g id = elim (lookup id g.by_id) [
  | none ↦ none
  | some p ↦ if p.reports_to == "" then none else lookup p.reports_to g.by_id
]

abbrev pub ids_of : List Profile → List String
ids_of ps = map (λ p. p.id) ps

-- `cyclePathFrom`
unfoldable pub cycle_path_from : List Profile → String → List String
cycle_path_from [] repeated = []
cycle_path_from (p ∷ ps) repeated =
    let later = cycle_path_from ps repeated in if p.id == repeated then ids_of (p ∷ ps) else later

-- The loop of `Chain`: the chain, and the path of a `CycleError`. `none` is the end of the fuel.
unfoldable pub chain_from :
    ℕ → Graph → List String → List Profile → String → Option (List Profile × Option (List String))
chain_from zero g visited chain cur = none
chain_from (suc fuel) g visited chain cur =
    if cur == "" then some (chain, none) else elim (lookup cur g.by_id) [
      | none ↦ some (chain, none)
      | some p ↦
          let later = chain_from fuel g (cur ∷ visited) (chain ++ p ∷ []) p.reports_to in
          if contains visited cur then some (chain, some (cycle_path_from chain cur)) else later
    ]

-- `Chain`
unfoldable pub chain_of : Graph → String → Option (List Profile × Option (List String))
chain_of g id = chain_from (length g.ids + 1) g [] [] id

-- `DirectReports`
unfoldable pub direct_reports : Graph → String → List Profile
direct_reports g id = map (profile_at g.by_id) (reports_in g.reports id)

-- The variables of the inner loops of `TransitiveReports`.
pub record Sweep : Type 0 where
  pub visited : List String
  pub out : List Profile
  pub next : List String

abbrev pub visit_child : Graph → Sweep → String → Sweep
visit_child g s child = if contains s.visited child then s else record {
  visited = child ∷ s.visited;
  out = s.out ++ profile_at g.by_id child ∷ [];
  next = s.next ++ child ∷ [];
}

unfoldable pub visit_children : Graph → Sweep → List String → Sweep
visit_children g s [] = s
visit_children g s (child ∷ children) = visit_children g (visit_child g s child) children

unfoldable pub visit_frontier : Graph → Sweep → List String → Sweep
visit_frontier g s [] = s
visit_frontier g s (cur ∷ frontier) =
    visit_frontier g (visit_children g s (reports_in g.reports cur)) frontier

-- The loop over the levels; `none` is the end of the fuel.
unfoldable pub levels_from :
    ℕ → Graph → ℕ → ℕ → List String → List String → List Profile → Option (List Profile)
levels_from zero g depth level frontier visited out = none
levels_from (suc fuel) g depth level frontier visited out = elim frontier [
  | [] ↦ some out
  | cur ∷ rest ↦
      let s = visit_frontier g (record { visited = visited; out = out; next = [] }) (cur ∷ rest) in
      let later = levels_from fuel g depth (level + 1) s.next s.visited s.out in
      if ltb 0 depth && leb depth level then some out else later
]

abbrev pub sorted_reports : Option (List Profile) → Option (List Profile)
sorted_reports none = none
sorted_reports (some out) = some (sort_by (λ p. p.id) out)

-- `TransitiveReports`
unfoldable pub transitive_reports : Graph → String → ℕ → Option (List Profile)
transitive_reports g id depth = elim (lookup id g.by_id) [
  | none ↦ some []
  | some p ↦ sorted_reports (levels_from (length g.ids + 1) g depth 0 (id ∷ []) (id ∷ []) [])
]

-- `Roots`
unfoldable pub roots : Graph → List Profile
roots g = keep (λ p. p.reports_to == "") (map (profile_at g.by_id) g.ids)
