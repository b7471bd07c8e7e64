-- ===== src/Collaboration/Dependencies.antt =====
-- internal/core/collaboration/task_dependency.go: the graph of task dependencies, and its topological sort by
-- Kahn's algorithm. The loop over the queue runs on fuel, one unit for a task. An in-degree is an `int` that
-- may fall below 0 in the source, where it is not looked at again; here it stops at 0, and a task enters the queue
-- when its in-degree falls from 1, in both.
pub mod Tables
pub mod Relaxing
pub mod Rounds
pub mod Orders
pub mod Tests
use aps.Base.{
  ℕ, zero, suc, ◌+◌, ◌-◌, String, Bool, true, false, Option, none, some, List, [], ◌∷◌, ◌++◌,
  Result, ok, err, Dict, lookup, insert, nat_eq, length, if◌then◌else◌, contains,
}

-- `dg.nodes`
abbrev pub DependencyGraph : Type 0
DependencyGraph = Dict (List String)

-- The loop that puts missing dependencies into the graph.
unfoldable pub add_missing : DependencyGraph → List String → DependencyGraph
add_missing nodes [] = nodes
add_missing nodes (dep ∷ deps) =
    add_missing (elim (lookup dep nodes) [ none ↦ insert dep [] nodes | some ds ↦ nodes ]) deps

-- `AddTask`
unfoldable pub add_task : DependencyGraph → String → List String → DependencyGraph
unfolding add_missing
add_task nodes task_id dependencies = add_missing (insert task_id dependencies nodes) dependencies

-- The zero value for a missing key.
abbrev pub degree_in : Dict ℕ → String → ℕ
degree_in degrees id = elim (lookup id degrees) [ none ↦ 0 | some n ↦ n ]

abbrev pub downstream_in : Dict (List String) → String → List String
downstream_in table id = elim (lookup id table) [ none ↦ [] | some ids ↦ ids ]

abbrev pub with_zero : Dict ℕ → String → Dict ℕ
with_zero degrees id = elim (lookup id degrees) [ none ↦ insert id 0 degrees | some n ↦ degrees ]

-- The first loop of `TopologicalSort`.
unfoldable pub zero_degrees : Dict ℕ → DependencyGraph → Dict ℕ
zero_degrees degrees [] = degrees
zero_degrees degrees (node ∷ nodes) = zero_degrees (with_zero degrees node.0) nodes

pub record EdgeTables : Type 0 where
  pub in_degree : Dict ℕ
  pub depended_by : Dict (List String)

-- The loop over the dependencies of one task.
unfoldable pub add_edges : String → EdgeTables → List String → EdgeTables
add_edges id t [] = t
add_edges id t (dep ∷ deps) =
    add_edges id
      (record {
        in_degree = insert id (degree_in t.in_degree id + 1) t.in_degree;
        depended_by = insert dep (downstream_in t.depended_by dep ++ id ∷ []) t.depended_by;
      })
      deps

unfoldable pub fill_tables : EdgeTables → DependencyGraph → EdgeTables
fill_tables t [] = t
fill_tables t (node ∷ nodes) = fill_tables (add_edges node.0 t node.1) nodes

-- The tables of `TopologicalSort`.
unfoldable pub tables_of : DependencyGraph → EdgeTables
tables_of nodes = fill_tables (record { in_degree = zero_degrees [] nodes; depended_by = [] }) nodes

-- The tasks that wait for nothing.
unfoldable pub seeds : Dict ℕ → List String
seeds [] = []
seeds (entry ∷ degrees) =
    let rest = seeds degrees in if nat_eq entry.1 0 then entry.0 ∷ rest else rest

pub record Progress : Type 0 where
  pub degrees : Dict ℕ
  pub queue : List String
  pub sorted : List String

-- The loop over the tasks that depend on a finished one.
unfoldable pub relax : Dict ℕ → List String → List String → Dict ℕ × List String
relax degrees queue [] = (degrees, queue)
relax degrees queue (task ∷ tasks) =
    let n = degree_in degrees task in
    relax (insert task (n - 1) degrees) (if nat_eq n 1 then queue ++ task ∷ [] else queue) tasks

-- One round of the loop, after `node` left the head of the queue.
unfoldable pub take_task : Dict (List String) → Progress → String → List String → Progress
take_task depended_by p node queue =
    let relaxed = relax p.degrees queue (downstream_in depended_by node) in
    record { degrees = relaxed.0; queue = relaxed.1; sorted = p.sorted ++ node ∷ [] }

pub data SortError : Type 0 where
  circular out_of_fuel : SortError

-- The loop `for len(queue) > 0`.
unfoldable pub sort_loop : ℕ → Dict (List String) → Progress → Result SortError Progress
sort_loop zero depended_by p = elim p.queue [ [] ↦ ok p | _ ∷ _ ↦ err out_of_fuel ]
sort_loop (suc fuel) depended_by p = elim p.queue [
  | [] ↦ ok p
  | node ∷ queue ↦ sort_loop fuel depended_by (take_task depended_by p node queue)
]

abbrev pub checked_length :
    DependencyGraph → Result SortError Progress → Result SortError (List String)
checked_length nodes (err e) = err e
checked_length nodes (ok p) =
    if nat_eq (length p.sorted) (length nodes) then ok p.sorted else err circular

-- `TopologicalSort`
unfoldable pub topological_sort : DependencyGraph → Result SortError (List String)
topological_sort nodes =
    let t = tables_of nodes in
    checked_length nodes (
      sort_loop (length nodes) t.depended_by
        (record { degrees = t.in_degree; queue = seeds t.in_degree; sorted = [] }))

pub data StartError : Type 0 where
  task_unknown : StartError

abbrev pub all_done : (String → Bool) → List String → Bool
all_done completed [] = true
all_done completed (dep ∷ deps) =
    let rest = all_done completed deps in if completed dep then rest else false

-- `CanStart`
unfoldable pub can_start : DependencyGraph → String → (String → Bool) → Result StartError Bool
can_start nodes task_id completed = elim (lookup task_id nodes) [
  | none ↦ err task_unknown
  | some deps ↦ ok (all_done completed deps)
]
