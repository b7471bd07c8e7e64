-- ===== src/Collaboration/Dependencies/Relaxing.antt =====
-- internal/core/collaboration/task_dependency.go: the inner loop of the topological sort.
use aps.Base.{
  ℕ, ◌+◌, ◌-◌, String, ◌&&◌, ◌≡◌, List, [], ◌∷◌, ◌++◌, Dict, insert, lookup-insert, nat_eq, ltb,
  leb, times, times-append, if◌then◌else◌, arith, eq_iff,
}
use aps.Collaboration.Dependencies.{degree_in, relax}

-- The in-degree of a task falls by one for each time that it is met.
pub degree_in-relax :
    (x : String) (degrees : Dict ℕ) (queue tasks : List String)
    → degree_in (relax degrees queue tasks).0 x ≡ degree_in degrees x - times x tasks
unfolding relax
degree_in-relax x degrees queue [] = omega arith
degree_in-relax x degrees queue (task ∷ tasks) =
    let n = degree_in degrees task in
    let queue' = if nat_eq n 1 then queue ++ task ∷ [] else queue in
    ground (
      arith,
      degree_in-relax x (insert task (n - 1) degrees) queue' tasks,
      lookup-insert task x (n - 1) degrees,
      eq_iff task x,
    )

-- The queue gets the tasks whose in-degree reaches 0 here, once each.
pub times-relax :
    (x : String) (degrees : Dict ℕ) (queue tasks : List String)
    → times x (relax degrees queue tasks).1
      ≡ times x queue
        + (if ltb 0 (degree_in degrees x) && leb (degree_in degrees x) (times x tasks)
            then 1
            else 0)
unfolding relax
times-relax x degrees queue [] = ground arith
times-relax x degrees queue (task ∷ tasks) =
    let n = degree_in degrees task in
    let queue' = if nat_eq n 1 then queue ++ task ∷ [] else queue in
    ground (
      arith,
      times-relax x (insert task (n - 1) degrees) queue' tasks,
      lookup-insert task x (n - 1) degrees,
      eq_iff task x,
      times-append x queue (task ∷ []),
    )
