-- ===== src/Collaboration/Resolution.antt =====
-- internal/core/collaboration/resolution.go and conflict.go: how conflicts of a workspace are found and settled. The
-- agents of the workspace and its context are two arguments, as they are two components; either may be nil. Left out:
-- the texts of a resolution, and DetectOrderingConflicts, which calls DetectCycles.
pub mod Winners
pub mod Restoring
pub mod Detection
pub mod Tests
use aps.Base.{
  keys_of, ℕ, ◌+◌, ◌-◌, String, Bool, true, false, not, ◌&&◌, ◌≡◌, Option, none, some, List, [],
  ◌∷◌, ◌++◌, Result, ok, err, keep, length, contains, Dict, lookup, insert, ltb, leb, ◌==◌,
  if◌then◌else◌,
}
use aps.Collaboration.Types.{
  AgentRole, owner, contributor, observer, AgentInfo, ConflictType, write, lock, Conflict,
  ConflictResolution, ResolutionStrategy, priority, keep_first, keep_last, rollback,
}
use aps.Collaboration.Workspace.{Workspace, get_agent}
use aps.Collaboration.Context.{
  ContextVariable, ContextMutation, ContextService, WorkspaceContext, ContextError,
  mutations_for_key, set,
}

pub data ConflictPolicy : Type 0 where
  priority_policy keep_first_policy keep_last_policy rollback_policy : ConflictPolicy

pub data ResolutionError (E : Type 0) : Type 0 where
  unsupported no_workspace no_agents no_valid_agents no_mutations no_matching : ResolutionError E
  set_failed : ContextError E → ResolutionError E

-- `NewPolicy`
unfoldable pub new_policy :
    {E : Type 0} → ResolutionStrategy → Result (ResolutionError E) ConflictPolicy
new_policy priority = ok priority_policy
new_policy keep_first = ok keep_first_policy
new_policy keep_last = ok keep_last_policy
new_policy rollback = ok rollback_policy
new_policy _ = err unsupported

-- `rolePriority`
abbrev pub role_priority : AgentRole → ℕ
role_priority owner = 3
role_priority contributor = 2
role_priority observer = 1
role_priority _ = 0

-- One agent of a conflict: the winner so far, and one more than `winnerPriority`, which starts at -1.
unfoldable pub rank_agent : Workspace → String × ℕ → String → String × ℕ
rank_agent ws best agent_id = elim (get_agent ws agent_id) [
  | err e ↦ best
  | ok agent ↦
      let pri = role_priority agent.role in if leb best.1 pri then (agent_id, pri + 1) else best
]

-- The loop over the agents.
unfoldable pub winner_among : Workspace → String × ℕ → List String → String × ℕ
winner_among ws best [] = best
winner_among ws best (agent_id ∷ rest) = winner_among ws (rank_agent ws best agent_id) rest

-- The part of PriorityPolicy that a workspace is given to.
unfoldable pub settle_by_role :
    {E : Type 0} → ℕ → Conflict → Workspace → Result (ResolutionError E) ConflictResolution
settle_by_role now conflict ws = elim conflict.agent_ids [
  | [] ↦ err no_agents
  | _ ∷ _ ↦
      let winner = (winner_among ws ("", 0) conflict.agent_ids).0 in
      if winner == ""
      then err no_valid_agents
      else ok (record { strategy = priority; resolved_by = winner; timestamp = now })
]

-- `PriorityPolicy.Resolve`
unfoldable pub resolve_by_role :
    {E : Type 0} → ℕ → Conflict → Option Workspace → Result (ResolutionError E) ConflictResolution
resolve_by_role now conflict workspace = elim workspace [
  | none ↦ err no_workspace
  | some ws ↦ settle_by_role now conflict ws
]

-- `earliest == nil || m.Timestamp.Before(earliest.Timestamp)`
abbrev pub is_earlier : ContextMutation → Option ContextMutation → Bool
is_earlier m none = true
is_earlier m (some best) = ltb m.timestamp best.timestamp

abbrev pub is_later : ContextMutation → Option ContextMutation → Bool
is_later m none = true
is_later m (some best) = ltb best.timestamp m.timestamp

-- The loop that looks for the earliest mutation of a conflicting agent, or for the latest.
unfoldable pub pick :
    (ContextMutation → Option ContextMutation → Bool)
    → List String
    → Option ContextMutation
    → List ContextMutation
    → Option ContextMutation
pick beats agents best [] = best
pick beats agents best (m ∷ rest) =
    pick beats agents (if contains agents m.agent_id && beats m best then some m else best) rest

-- What the three policies on mutations share: the mutation they go by.
unfoldable pub mutation_for :
    {E : Type 0}
    → (ContextMutation → Option ContextMutation → Bool)
    → Conflict
    → WorkspaceContext
    → Result (ResolutionError E) ContextMutation
mutation_for beats conflict wc = elim (mutations_for_key wc conflict.resource) [
  | [] ↦ err no_mutations
  | _ ∷ _ ↦ elim (pick beats conflict.agent_ids none (mutations_for_key wc conflict.resource)) [
    | none ↦ err no_matching
    | some m ↦ ok m
  ]
]

abbrev pub by_system : ℕ → ResolutionStrategy → ConflictResolution
by_system now strategy = record { strategy = strategy; resolved_by = "system"; timestamp = now }

module _ {E : Type 0} (service : ContextService E) where
  -- `workspace.Context.Set(conflict.Resource, value, "system", RoleOwner)`, and the resolution.
  unfoldable pub restore :
      ℕ
      → ResolutionStrategy
      → Conflict
      → WorkspaceContext
      → String
      → Result (ResolutionError E) (ConflictResolution × WorkspaceContext)
  restore now strategy conflict wc value =
      elim (set service now "" wc conflict.resource value "system" owner none) [
        | err e ↦ err (set_failed e)
        | ok written ↦ ok (by_system now strategy, written.1)
      ]

  -- `KeepFirstPolicy.Resolve`, where there is a context
  unfoldable pub resolve_first :
      ℕ
      → Conflict
      → WorkspaceContext
      → Result (ResolutionError E) (ConflictResolution × WorkspaceContext)
  resolve_first now conflict wc = elim (mutation_for is_earlier conflict wc) [
    | err e ↦ err e
    | ok m ↦ restore now keep_first conflict wc m.new_value
  ]

  -- `RollbackPolicy.Resolve`, where there is a context
  unfoldable pub resolve_rollback :
      ℕ
      → Conflict
      → WorkspaceContext
      → Result (ResolutionError E) (ConflictResolution × WorkspaceContext)
  resolve_rollback now conflict wc = elim (mutation_for is_earlier conflict wc) [
    | err e ↦ err e
    | ok m ↦ restore now rollback conflict wc m.old_value
  ]

  -- `KeepLastPolicy.Resolve`, where there is a context
  unfoldable pub resolve_last :
      ℕ
      → Conflict
      → WorkspaceContext
      → Result (ResolutionError E) (ConflictResolution × WorkspaceContext)
  resolve_last now conflict wc = elim (mutation_for is_later conflict wc) [
    | err e ↦ err e
    | ok m ↦ ok (by_system now keep_last, wc)
  ]

-- The writes at or after the cutoff, `now` less the window.
abbrev pub recent : ℕ → ℕ → List ContextMutation → List ContextMutation
recent now window mutations = keep (λ m. not (ltb m.timestamp (now - window))) mutations

abbrev pub writes_in : Dict (List ContextMutation) → String → List ContextMutation
writes_in by_key key = elim (lookup key by_key) [ none ↦ [] | some ms ↦ ms ]

-- The loop that groups mutations by their key.
unfoldable pub group_by_key :
    Dict (List ContextMutation) → List ContextMutation → Dict (List ContextMutation)
group_by_key by_key [] = by_key
group_by_key by_key (m ∷ rest) =
    group_by_key (insert m.key (writes_in by_key m.key ++ m ∷ []) by_key) rest

-- The agents that wrote to a key, each once.
unfoldable pub agents_of : Dict Bool → List ContextMutation → Dict Bool
agents_of agents [] = agents
agents_of agents (m ∷ rest) = agents_of (insert m.agent_id true agents) rest

abbrev pub write_conflict : ℕ → String → String → String → List String → Conflict
write_conflict now id workspace_id key agent_ids = record {
  id = id;
  workspace_id = workspace_id;
  type = write;
  resource = key;
  agent_ids = agent_ids;
  resolution = none;
  detected_at = now;
}

-- The loop over the groups; `ids` are the new random IDs by position.
unfoldable pub conflicts_of :
    ℕ → (ℕ → String) → String → Dict (List ContextMutation) → List Conflict
conflicts_of now ids workspace_id [] = []
conflicts_of now ids workspace_id (group ∷ groups) =
    let rest = conflicts_of now ids workspace_id groups in
    let agents = keys_of (agents_of [] group.1) in
    if ltb (length group.1) 2
    then rest
    else if ltb (length agents) 2
    then rest
    else write_conflict now (ids (length rest)) workspace_id group.0 agents ∷ rest

-- `DetectWriteConflicts`, where there is a context
unfoldable pub detect_write_conflicts :
    ℕ → (ℕ → String) → String → WorkspaceContext → ℕ → List Conflict
detect_write_conflicts now ids workspace_id wc window =
    if ltb (length wc.mutations) 2
    then []
    else conflicts_of now ids workspace_id (group_by_key [] (recent now window wc.mutations))

-- `DetectLockConflicts`, for a table of locks that is not nil
unfoldable pub detect_lock_conflict : ℕ → String → Dict String → String → String → Option Conflict
detect_lock_conflict now id locks requestor resource = elim (lookup resource locks) [
  | none ↦ none
  | some holder ↦
      if holder == requestor
      then none
      else some (record {
        id = id;
        workspace_id = "";
        type = lock;
        resource = resource;
        agent_ids = holder ∷ requestor ∷ [];
        resolution = none;
        detected_at = now;
      })
]
