-- ===== src/Collaboration/Dependencies/Rounds.antt =====
-- internal/core/collaboration/task_dependency.go: the invariant of the topological sort, and that its loop ends.
use mathlib.Core.List.{append_assoc, append-nil}
use aps.Base.{
  contains-append, keys_of, times-keys_of, length-keys_of, ℕ, zero, suc, ◌+◌, ◌≤◌, String, false,
  not, ◌&&◌, subst, ◌≡◌, refl, inl, inr, ◌⊎◌, List, [], ◌∷◌, ◌++◌, lookup, has_key, Distinct, ok,
  nat_eq, count, length, length-append, contains, contains-times, times, times-append,
  length-le_of_times, if◌then◌else◌, ◌==◌, arith, eq_iff, eq_refl, ap, sym, ◌∙◌,
}
use aps.Collaboration.Dependencies.{
  DependencyGraph, degree_in, downstream_in, EdgeTables, tables_of, seeds, Progress, take_task,
  sort_loop,
}
use aps.Collaboration.Dependencies.Tables.{demand, wants, Filled, tables_of-Filled}
use aps.Collaboration.Dependencies.Relaxing.{degree_in-relax, times-relax}

-- How many dependencies of a task are not among the finished ones.
abbrev pub unmet : DependencyGraph → List String → String → ℕ
unmet [] done x = 0
unmet (node ∷ nodes) done x =
    (if node.0 == x then count (λ d. not (contains done d)) node.1 else 0) + unmet nodes done x

pub unmet_start : (nodes : DependencyGraph) (x : String) → unmet nodes [] x ≡ demand nodes x
unmet_start [] x = refl
unmet_start (node ∷ nodes) x = ground (arith, unmet_start nodes x, all_counted node.1)
  where
    all_counted : (deps : List String) → count (λ d. not (contains [] d)) deps ≡ length deps
    all_counted [] = refl
    all_counted (d ∷ deps) = ap suc (all_counted deps)

count_met :
    (done : List String) (task : String) (deps : List String)
    → contains done task ≡ false
    → count (λ d. not (contains done d)) deps
      ≡ count (λ d. not (contains (done ++ task ∷ []) d)) deps + times task deps
count_met done task [] h = refl
count_met done task (d ∷ deps) h = ground (
  arith,
  h,
  count_met done task deps h,
  contains-append done (task ∷ []) d,
  eq_iff task d,
  eq_iff d task,
)

unmet-finish :
    (nodes : DependencyGraph) (done : List String) (task x : String)
    → contains done task ≡ false
    → unmet nodes done x ≡ unmet nodes (done ++ task ∷ []) x + wants nodes x task
unmet-finish [] done task x h = refl
unmet-finish (node ∷ nodes) done task x h =
    ground (arith, unmet-finish nodes done task x h, count_met done task node.1 h)

pub unmet_absent :
    (nodes : DependencyGraph) (done : List String) (x : String)
    → has_key x nodes ≡ false
    → unmet nodes done x ≡ 0
unfolding lookup
unmet_absent [] done x h = refl
unmet_absent (node ∷ nodes) done x h = ground (arith, h, unmet_absent nodes done x)

-- Each task of the list has its dependencies before it or among the finished ones.
abbrev pub IsOrdered : DependencyGraph → List String → List String → Type 0
IsOrdered nodes done [] = Unit
IsOrdered nodes done (x ∷ xs) = (unmet nodes done x ≡ 0) × IsOrdered nodes (done ++ x ∷ []) xs

IsOrdered-append_one :
    (nodes : DependencyGraph) (done xs : List String) (x : String)
    → IsOrdered nodes done xs
    → unmet nodes (done ++ xs) x ≡ 0
    → IsOrdered nodes done (xs ++ x ∷ [])
IsOrdered-append_one nodes done [] x h e =
    (subst (λ l. unmet nodes l x ≡ 0) (append-nil done) e, tt)
IsOrdered-append_one nodes done (y ∷ xs) x h e = (
  h.0,
  IsOrdered-append_one nodes (done ++ y ∷ []) xs x h.1
      (subst (λ l. unmet nodes l x ≡ 0) (sym (append_assoc done (y ∷ []) xs)) e),
)

list-cases :
    (xs : List String) → (xs ≡ []) ⊎ ((x : String) × (rest : List String) × (xs ≡ x ∷ rest))
list-cases [] = inl refl
list-cases (x ∷ rest) = inr (x, rest, refl)

module _ (nodes : DependencyGraph) (t : EdgeTables) (filled : Filled nodes t) where
  pub record Inv (p : Progress) : Type 0 where
    pub degree : (x : String) → degree_in p.degrees x ≡ unmet nodes p.sorted x
    pub placed :
        (x : String)
        → times x p.sorted + times x p.queue
          ≡ (if has_key x nodes && nat_eq (unmet nodes p.sorted x) 0 then 1 else 0)
    pub ordered : IsOrdered nodes [] p.sorted

  Inv-take_task :
      (p : Progress) (node : String) (queue : List String)
      → p.queue ≡ node ∷ queue
      → Inv p
      → Inv (take_task t.depended_by p node queue)
  unfolding take_task
  Inv-take_task p node queue e h =
      let downstream = downstream_in t.depended_by node in
      let here : (times node p.sorted ≡ 0) × (unmet nodes p.sorted node ≡ 0) =
        ground (arith, e, h.placed node, eq_refl node) in
      let new : contains p.sorted node ≡ false =
        ground (arith, here, contains-times p.sorted node) in
      let step = λ (x : String). unmet-finish nodes p.sorted node x new in
      record {
        degree = λ x. ground (
          arith,
          h.degree x,
          step x,
          filled.downstream x node,
          degree_in-relax x p.degrees queue downstream,
        );
        placed = λ x. ground (
          arith,
          e,
          h.placed x,
          h.degree x,
          step x,
          filled.downstream x node,
          times-relax x p.degrees queue downstream,
          times-append x p.sorted (node ∷ []),
          unmet_absent nodes p.sorted x,
        );
        ordered = IsOrdered-append_one nodes [] p.sorted node h.ordered here.1;
      }

  -- No task is placed twice, so that the finished and the waiting ones are not more than the tasks.
  pub Inv-room :
      Distinct nodes → (p : Progress) → Inv p → length p.sorted + length p.queue ≤ length nodes
  Inv-room distinct p h =
      let few : (x : String) → times x (p.sorted ++ p.queue) ≤ times x (keys_of nodes) = λ x.
        ground
          (arith, h.placed x, times-append x p.sorted p.queue, times-keys_of x nodes distinct) in
      ground (
        arith,
        length-le_of_times (p.sorted ++ p.queue) (keys_of nodes) few,
        length-append p.sorted p.queue,
        length-keys_of nodes,
      )

  sort_loop-empty : (fuel : ℕ) (p : Progress) → p.queue ≡ [] → sort_loop fuel t.depended_by p ≡ ok p
  unfolding sort_loop
  sort_loop-empty zero p e = ground (arith, e)
  sort_loop-empty (suc fuel) p e = ground (arith, e)

  sort_loop-more :
      (fuel : ℕ) (p : Progress) (node : String) (queue : List String)
      → p.queue ≡ node ∷ queue
      → sort_loop (suc fuel) t.depended_by p
        ≡ sort_loop fuel t.depended_by (take_task t.depended_by p node queue)
  unfolding sort_loop
  sort_loop-more fuel p node queue e = ground (arith, e)

  -- The rounds end with an empty queue.
  unfoldable pub Ends : ℕ → Progress → Type 0
  Ends fuel p = (q : Progress) × (sort_loop fuel t.depended_by p ≡ ok q) × (q.queue ≡ []) × Inv q

  sort_loop-Ends :
      Distinct nodes
      → (fuel : ℕ) (p : Progress) → length p.sorted + fuel ≡ length nodes
      → Inv p
      → Ends fuel p
  unfolding Ends
  sort_loop-Ends distinct zero p e h = elim (list-cases p.queue) [
    | inl none_left ↦ (p, sort_loop-empty 0 p none_left, none_left, h)
    | inr (node, queue, more) ↦ absurd (ground (arith, e, more, Inv-room distinct p h))
  ]
  sort_loop-Ends distinct (suc fuel) p e h = elim (list-cases p.queue) [
    | inl none_left ↦ (p, sort_loop-empty (suc fuel) p none_left, none_left, h)
    | inr (node, queue, more) ↦
        let done = p.sorted ++ node ∷ [] in
        let later =
          sort_loop-Ends distinct fuel (take_task t.depended_by p node queue)
            (unfold take_task in omega (arith, e, length-append p.sorted (node ∷ [])))
            (Inv-take_task p node queue more h) in
        (later.0, sort_loop-more fuel p node queue more ∙ later.1, later.2, later.3)
  ]

  Inv-start : Inv (record { degrees = t.in_degree; queue = seeds t.in_degree; sorted = [] })
  Inv-start = record {
    degree = λ x. filled.degree x ∙ sym (unmet_start nodes x);
    placed = λ x. ground (arith, filled.start x, unmet_start nodes x);
    ordered = tt;
  }

-- How the loop ends: with an empty queue, in a state that satisfies the invariant.
pub topological_sort_run :
    (nodes : DependencyGraph)
    → Distinct nodes
    → let t = tables_of nodes in
      Ends nodes t
        (tables_of-Filled nodes)
        (length nodes)
        (record { degrees = t.in_degree; queue = seeds t.in_degree; sorted = [] })
topological_sort_run nodes distinct =
    let t = tables_of nodes in
    let filled = tables_of-Filled nodes in
    sort_loop-Ends nodes t filled distinct (length nodes)
      (record { degrees = t.in_degree; queue = seeds t.in_degree; sorted = [] }) (omega arith)
      (Inv-start nodes t filled)
