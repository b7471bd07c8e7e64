-- ===== src/Collaboration/Dependencies/Tests.antt =====
-- internal/core/collaboration/task_dependency.go: a release with four tasks, a circle of two, and the theorems at
-- them.
use aps.Base.{
  String, false, ◌≡◌, ◌≢◌, refl, List, [], ◌∷◌, ok, err, Distinct, contains, lookup, insert,
}
use aps.Collaboration.Dependencies.{
  DependencyGraph, add_missing, add_task, zero_degrees, add_edges, fill_tables, tables_of, seeds,
  relax, take_task, sort_loop, topological_sort, circular, out_of_fuel, can_start, task_unknown,
}
use aps.Collaboration.Dependencies.Orders.{
  IsOrder, topological_sort_ends, topological_sort-IsOrder, circular_iff, Distinct-add_task,
}

abbrev release : DependencyGraph
release =
    add_task (add_task (add_task [] "ship" ("test" ∷ "docs" ∷ [])) "test" ("build" ∷ [])) "docs"
      ("build" ∷ [])

abbrev circle : DependencyGraph
circle = add_task (add_task [] "egg" ("hen" ∷ [])) "hen" ("egg" ∷ [])

release-Distinct : Distinct release
release-Distinct =
    Distinct-add_task (add_task (add_task [] "ship" ("test" ∷ "docs" ∷ [])) "test" ("build" ∷ []))
      "docs" ("build" ∷ [])
      (Distinct-add_task (add_task [] "ship" ("test" ∷ "docs" ∷ [])) "test" ("build" ∷ [])
        (Distinct-add_task [] "ship" ("test" ∷ "docs" ∷ []) tt))

circle-Distinct : Distinct circle
circle-Distinct =
    Distinct-add_task (add_task [] "egg" ("hen" ∷ [])) "hen" ("egg" ∷ [])
      (Distinct-add_task [] "egg" ("hen" ∷ []) tt)

abbrev release_order : List String
release_order = "build" ∷ "test" ∷ "docs" ∷ "ship" ∷ []

release_sorted : topological_sort release ≡ ok release_order
unfolding topological_sort tables_of zero_degrees fill_tables add_edges add_task add_missing lookup
    insert seeds sort_loop take_task relax
release_sorted = refl

circle_refused : topological_sort circle ≡ err circular
unfolding topological_sort tables_of zero_degrees fill_tables add_edges add_task add_missing lookup
    insert seeds sort_loop take_task relax
circle_refused = refl

unknown_task : can_start release "sign" (contains []) ≡ err task_unknown
unfolding can_start add_task add_missing lookup insert
unknown_task = refl

too_early : can_start release "ship" (contains ("build" ∷ "test" ∷ [])) ≡ ok false
unfolding can_start add_task add_missing lookup insert
too_early = refl

topological_sort_ends_example : topological_sort release ≢ err out_of_fuel
topological_sort_ends_example = topological_sort_ends release release-Distinct

topological_sort-IsOrder_example : IsOrder release release_order
topological_sort-IsOrder_example =
    topological_sort-IsOrder release release_order release-Distinct release_sorted

circular_iff_example : ¬ ((order : List String) × IsOrder circle order)
circular_iff_example = (circular_iff circle circle-Distinct).0 circle_refused
