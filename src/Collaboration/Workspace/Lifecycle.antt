-- ===== src/Collaboration/Workspace/Lifecycle.antt =====
-- internal/core/collaboration/workspace.go: a workspace over any sequence of calls. A call that returns
-- an error leaves the workspace as it was, and the caller may go on.
use aps.Base.{
  ℕ, ◌≤◌, ◌<◌, String, true, ◌≡◌, refl, List, [], ◌∷◌, Result, ok, err, arith, sym, subst,
}
use aps.Collaboration.Types.{
  AgentRole, WorkspaceConfig, WorkspaceState, creating, active, closing, archived, unknown,
  is_valid_state,
}
use aps.Collaboration.Workspace.{
  Workspace, WorkspaceError, add_agent, remove_agent, set_agent_role, update_agent_status,
  set_state, new_workspace, transition_allowed,
}
use aps.Collaboration.Workspace.Members.{
  IsSound, new_workspace-IsSound, add_agent-IsSound, remove_agent-IsSound, set_agent_role-IsSound,
  update_agent_status-IsSound, set_state-IsSound,
}

-- The calls that change a workspace.
pub data Op : Type 0 where
  add : String → AgentRole → Op
  remove : String → Op
  set_role : String → AgentRole → Op
  set_status : String → String → Op
  go_to : WorkspaceState → Op

abbrev after_add : {A : Type 0} → Workspace → Result WorkspaceError (A × Workspace) → Workspace
after_add ws (ok (a, ws')) = ws'
after_add ws (err e) = ws

abbrev after : Workspace → Result WorkspaceError Workspace → Workspace
after ws (ok ws') = ws'
after ws (err e) = ws

unfoldable pub apply_op : ℕ → Workspace → Op → Workspace
apply_op now ws (add p r) = after_add ws (add_agent now ws p r)
apply_op now ws (remove p) = after ws (remove_agent now ws p)
apply_op now ws (set_role p r) = after ws (set_agent_role now ws p r)
apply_op now ws (set_status p s) = after ws (update_agent_status now ws p s)
apply_op now ws (go_to s) = after ws (set_state now ws s)

-- Calls in order, each with the time at which it runs.
unfoldable pub run_ops : Workspace → List (ℕ × Op) → Workspace
run_ops ws [] = ws
run_ops ws ((now, o) ∷ rest) = run_ops (apply_op now ws o) rest

after-IsSound :
    (ws : Workspace) (r : Result WorkspaceError Workspace)
    → IsSound ws
    → ((ws' : Workspace) → r ≡ ok ws' → IsSound ws')
    → IsSound (after ws r)
after-IsSound ws (ok ws') v f = f ws' refl
after-IsSound ws (err e) v f = v

after_add-IsSound :
    {A : Type 0} (ws : Workspace) (r : Result WorkspaceError (A × Workspace))
    → IsSound ws
    → ((a : A) (ws' : Workspace) → r ≡ ok (a, ws') → IsSound ws')
    → IsSound (after_add ws r)
after_add-IsSound ws (ok (a, ws')) v f = f a ws' refl
after_add-IsSound ws (err e) v f = v

-- Every call, whether it succeeds or not, keeps a workspace sound.
pub apply_op-IsSound :
    (now : ℕ) (ws : Workspace) (o : Op) → IsSound ws → IsSound (apply_op now ws o)
unfolding apply_op
apply_op-IsSound now ws (add p r) v =
    after_add-IsSound ws (add_agent now ws p r) v (λ a ws' e. add_agent-IsSound now ws p r v e)
apply_op-IsSound now ws (remove p) v =
    after-IsSound ws (remove_agent now ws p) v (λ ws' e. remove_agent-IsSound now ws p v e)
apply_op-IsSound now ws (set_role p r) v =
    after-IsSound ws (set_agent_role now ws p r) v (λ ws' e. set_agent_role-IsSound now ws p r v e)
apply_op-IsSound now ws (set_status p s) v =
    after-IsSound ws (update_agent_status now ws p s) v
      (λ ws' e. update_agent_status-IsSound now ws p s v e)
apply_op-IsSound now ws (go_to s) v =
    after-IsSound ws (set_state now ws s) v (λ ws' e. set_state-IsSound now ws s v e)

run_ops-IsSound : (ws : Workspace) (ops : List (ℕ × Op)) → IsSound ws → IsSound (run_ops ws ops)
unfolding run_ops
run_ops-IsSound ws [] v = v
run_ops-IsSound ws ((now, o) ∷ rest) v =
    run_ops-IsSound (apply_op now ws o) rest (apply_op-IsSound now ws o v)

-- Whatever calls follow its creation, in any order and whether they succeed or fail, a workspace has
-- no profile twice, at least one owner, and no more members than `max_agents` (when that is set).
pub new_workspace-run_ops-IsSound :
    (now : ℕ) (id : String) (config : WorkspaceConfig) (ops : List (ℕ × Op)) {ws : Workspace}
    → new_workspace now id config ≡ ok ws
    → IsSound (run_ops ws ops)
new_workspace-run_ops-IsSound now id config ops {ws} h =
    run_ops-IsSound ws ops (new_workspace-IsSound now id config h)

-- How far a state is along its life: `creating`, `active`, `closing`, `archived`.
abbrev pub rank : WorkspaceState → ℕ
rank creating = 0
rank active = 1
rank closing = 2
rank archived = 3
rank (unknown s) = 0

-- A state as `NewWorkspace` and `SetState` leave it.
abbrev pub IsKnown : WorkspaceState → Type 0
IsKnown s = is_valid_state s ≡ true

transition-rank :
    (s t : WorkspaceState) → IsKnown s → IsKnown t → transition_allowed s t ≡ true → rank s < rank t
transition-rank s t k l h = ground arith

apply_op-rank :
    (now : ℕ) (ws : Workspace) (o : Op)
    → IsKnown ws.state
    → (rank ws.state ≤ rank (apply_op now ws o).state) × IsKnown (apply_op now ws o).state
unfolding apply_op add_agent remove_agent set_agent_role update_agent_status set_state
apply_op-rank now ws (add p r) k = ground arith
apply_op-rank now ws (remove p) k = ground arith
apply_op-rank now ws (set_role p r) k = ground arith
apply_op-rank now ws (set_status p s) k = ground arith
apply_op-rank now ws (go_to s) k = ground (arith, transition-rank ws.state s)

-- A workspace never goes back: its state only moves along creating, active, closing, archived.
pub rank-run_ops :
    (ws : Workspace) (ops : List (ℕ × Op))
    → IsKnown ws.state
    → (rank ws.state ≤ rank (run_ops ws ops).state) × IsKnown (run_ops ws ops).state
unfolding run_ops
rank-run_ops ws [] k = (omega arith, k)
rank-run_ops ws ((now, o) ∷ rest) k =
    let (up, known) = apply_op-rank now ws o k in
    let (ups, knowns) = rank-run_ops (apply_op now ws o) rest known in (omega arith, knowns)

archived_of_rank : (s : WorkspaceState) → 3 ≤ rank s → s ≡ archived
archived_of_rank s h = ground arith

-- Once archived, a workspace stays archived whatever calls follow.
pub archived_final :
    (ws : Workspace) (ops : List (ℕ × Op)) → ws.state ≡ archived → (run_ops ws ops).state ≡ archived
archived_final ws ops h = archived_of_rank _ (
    subst (λ s. rank s ≤ rank (run_ops ws ops).state) h
      (rank-run_ops ws ops (subst IsKnown (sym h) refl)).0)
