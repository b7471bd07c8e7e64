-- ===== src/Collaboration/Dependencies/Orders.antt =====
-- internal/core/collaboration/task_dependency.go: the topological sort against an independent description of an
-- order of execution.
use aps.Base.{
  keys_of, times-keys_of, length-keys_of, ◌≤◌, ◌<◌, String, true, subst, ◌≡◌, ◌≢◌, ◌↔◌, refl, none,
  some, List, [], ◌∷◌, ◌++◌, lookup, has_key, Distinct, ok, err, nat_eq, length, contains,
  contains-times, times, times-append, times-eq_of_length, if◌then◌else◌, arith, eq_iff, eq_refl,
  ap, sym, ◌∙◌, count, not, insert, Distinct-insert, Bool-cases, inl, inr, length-le_of_times,
}
use aps.Collaboration.Dependencies.{
  DependencyGraph, add_missing, add_task, EdgeTables, tables_of, Progress, checked_length,
  topological_sort, circular, out_of_fuel,
}
use aps.Collaboration.Dependencies.Tables.{tables_of-Filled}
use aps.Collaboration.Dependencies.Rounds.{
  unmet, unmet_absent, Inv-room, IsOrdered, Inv, Ends, topological_sort_run,
}

-- The dependencies of a task.
abbrev pub deps_of : DependencyGraph → String → List String
deps_of nodes task = elim (lookup task nodes) [ none ↦ [] | some deps ↦ deps ]

-- Each dependency of each task of the list stands before it, or in `done`.
abbrev pub InOrder : DependencyGraph → List String → List String → Type 0
InOrder nodes done [] = Unit
InOrder nodes done (task ∷ tasks) =
    ((dep : String) → 0 < times dep (deps_of nodes task) → 0 < times dep done)
    × InOrder nodes (done ++ task ∷ []) tasks

-- An order of execution: each task of the graph once, nothing else, and every task after its dependencies.
pub record IsOrder (nodes : DependencyGraph) (order : List String) : Type 0 where
  pub complete : (task : String) → times task order ≡ (if has_key task nodes then 1 else 0)
  pub in_order : InOrder nodes [] order

-- What `unmet` counts, when no task stands twice.
unmet_of_deps :
    (nodes : DependencyGraph) (done : List String) (x : String)
    → Distinct nodes
    → unmet nodes done x ≡ count (λ d. not (contains done d)) (deps_of nodes x)
unfolding lookup
unmet_of_deps [] done x h = refl
unmet_of_deps (node ∷ nodes) done x h =
    ground (arith, h.0, unmet_of_deps nodes done x h.1, unmet_absent nodes done x, eq_iff node.0 x)

Met : List String → List String → Type 0
Met done deps = (dep : String) → 0 < times dep deps → 0 < times dep done

none_unmet-Met :
    (done deps : List String) → count (λ d. not (contains done d)) deps ≡ 0 → Met done deps
unfolding Met
none_unmet-Met done [] e dep h = absurd (omega arith)
none_unmet-Met done (d ∷ deps) e dep h =
    let rest : count (λ x. not (contains done x)) deps ≡ 0 = ground (arith, e) in
    ground (arith, e, h, contains-times done d, eq_iff d dep, none_unmet-Met done deps rest dep)

Met-none_unmet :
    (done deps : List String) → Met done deps → count (λ d. not (contains done d)) deps ≡ 0
unfolding Met
Met-none_unmet done [] h = refl
Met-none_unmet done (d ∷ deps) h =
    let rest = Met-none_unmet done deps (λ dep k. h dep (ground (arith, k))) in
    ground (arith, rest, h d, eq_refl d, contains-times done d)

IsOrdered-InOrder :
    (nodes : DependencyGraph) (done order : List String)
    → Distinct nodes
    → IsOrdered nodes done order
    → InOrder nodes done order
IsOrdered-InOrder nodes done [] distinct h = tt
IsOrdered-InOrder nodes done (task ∷ tasks) distinct h = (
  unfold Met in
      none_unmet-Met done (deps_of nodes task) (sym (unmet_of_deps nodes done task distinct) ∙ h.0),
  IsOrdered-InOrder nodes (done ++ task ∷ []) tasks distinct h.1,
)

module _ (nodes : DependencyGraph) (distinct : Distinct nodes) where
  abbrev tables : EdgeTables
  tables = tables_of nodes

  abbrev InvOf : Progress → Type 0
  InvOf = Inv nodes tables (tables_of-Filled nodes)

  full-IsOrder : (q : Progress) → InvOf q → length q.sorted ≡ length nodes → IsOrder nodes q.sorted
  full-IsOrder q h e =
      let few : (x : String) → times x q.sorted ≤ times x (keys_of nodes) =
        λ x. ground (arith, h.placed x, times-keys_of x nodes distinct) in
      record {
        complete = λ x.
            times-eq_of_length q.sorted (keys_of nodes) few (e ∙ sym (length-keys_of nodes)) x
            ∙ times-keys_of x nodes distinct;
        in_order = IsOrdered-InOrder nodes [] q.sorted distinct h.ordered;
      }

  -- With an empty queue, a list whose tasks are in order is placed as far as it goes.
  reached :
      (q : Progress)
      → InvOf q
      → q.queue ≡ []
      → (done rest : List String) → ((x : String) → 0 < times x rest → has_key x nodes ≡ true)
      → Met q.sorted done
      → InOrder nodes done rest
      → Met q.sorted (done ++ rest)
  unfolding Met
  reached q h e done [] known before order =
      λ x k. before x (ground (arith, k, times-append x done []))
  reached q h e done (task ∷ tasks) known before order =
      let ready : unmet nodes q.sorted task ≡ 0 =
        unmet_of_deps nodes q.sorted task distinct
        ∙ Met-none_unmet q.sorted (deps_of nodes task) (λ dep k. before dep (order.0 dep k)) in
      let there : 0 < times task q.sorted =
        ground (arith, e, ready, h.placed task, known task, eq_refl task) in
      let seen : Met q.sorted (done ++ task ∷ []) =
        λ x k. ground (arith, k, there, before x, times-append x done (task ∷ []), eq_iff task x) in
      let rest =
        reached q h e (done ++ task ∷ []) tasks (λ x k. known x (ground (arith, k))) seen order.1 in
      λ x k. rest x (
        ground (
          arith,
          k,
          times-append x done (task ∷ tasks),
          times-append x done (task ∷ []),
          times-append x (done ++ task ∷ []) tasks,
        ))

  order-full :
      (q : Progress) (order : List String)
      → InvOf q
      → q.queue ≡ []
      → IsOrder nodes order
      → length q.sorted ≡ length nodes
  order-full q order h e o =
      let all =
        reached q h e [] order (λ x k. ground (arith, k, o.complete x))
          (unfold Met in λ x k. absurd (omega (arith, k))) o.in_order in
      let few : (x : String) → times x (keys_of nodes) ≤ times x q.sorted =
        λ x. unfold Met in ground (arith, times-keys_of x nodes distinct, all x, o.complete x) in
      omega (
        arith,
        length-le_of_times (keys_of nodes) q.sorted few,
        length-keys_of nodes,
        Inv-room nodes tables (tables_of-Filled nodes) distinct q h,
      )

  -- The last state of the loop decides the result.
  topological_sort_last :
      (q : Progress) × (topological_sort nodes
        ≡ (if nat_eq (length q.sorted) (length nodes) then ok q.sorted else err circular))
      × (q.queue ≡ [])
      × InvOf q
  unfolding Ends topological_sort
  topological_sort_last =
      let run = topological_sort_run nodes distinct in
      (run.0, ap (checked_length nodes) run.1, run.2, run.3)

-- For a graph without a task twice, the sort ends within its fuel.
pub topological_sort_ends :
    (nodes : DependencyGraph) → Distinct nodes → topological_sort nodes ≢ err out_of_fuel
topological_sort_ends nodes distinct h =
    let last = topological_sort_last nodes distinct in ground (arith, h, last.1)

-- What it returns is an order of execution.
pub topological_sort-IsOrder :
    (nodes : DependencyGraph) (sorted : List String)
    → Distinct nodes
    → topological_sort nodes ≡ ok sorted
    → IsOrder nodes sorted
topological_sort-IsOrder nodes sorted distinct h =
    let last = topological_sort_last nodes distinct in
    let full : length last.0.sorted ≡ length nodes = ground (arith, h, last.1) in
    let same : last.0.sorted ≡ sorted = ground (arith, h, last.1) in
    subst (IsOrder nodes) same (full-IsOrder nodes distinct last.0 last.3 full)

-- It refuses a graph as circular exactly when the graph has no order of execution.
pub circular_iff :
    (nodes : DependencyGraph)
    → Distinct nodes
    → (topological_sort nodes ≡ err circular) ↔ ¬ ((order : List String) × IsOrder nodes order)
circular_iff nodes distinct =
    let last = topological_sort_last nodes distinct in
    (
      λ refused found.
          ground (
            arith,
            refused,
            last.1,
            order-full nodes distinct last.0 found.0 last.3 last.2 found.1,
          ),
      λ none_found. elim (Bool-cases (nat_eq (length last.0.sorted) (length nodes))) [
        | inl same ↦ absurd (
            none_found
              (last.0.sorted, full-IsOrder nodes distinct last.0 last.3 (ground (arith, same))))
        | inr other ↦ ground (arith, other, last.1)
      ],
    )

Distinct-add_missing :
    (nodes : DependencyGraph) (deps : List String)
    → Distinct nodes
    → Distinct (add_missing nodes deps)
unfolding add_missing
Distinct-add_missing nodes [] h = h
Distinct-add_missing nodes (dep ∷ deps) h =
    elim (lookup dep nodes)
      as (λ o.
        Distinct (add_missing (elim o [ none ↦ insert dep [] nodes | some ds ↦ nodes ]) deps)) [
          | none ↦ Distinct-add_missing (insert dep [] nodes) deps (Distinct-insert dep [] nodes h)
          | some ds ↦ Distinct-add_missing nodes deps h
        ]

-- A task added to a graph without a task twice, with any dependencies, leaves it so.
pub Distinct-add_task :
    (nodes : DependencyGraph) (task_id : String) (dependencies : List String)
    → Distinct nodes
    → Distinct (add_task nodes task_id dependencies)
unfolding add_task
Distinct-add_task nodes task_id dependencies h =
    Distinct-add_missing (insert task_id dependencies nodes) dependencies
      (Distinct-insert task_id dependencies nodes h)
