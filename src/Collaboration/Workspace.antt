-- ===== src/Collaboration/Workspace.antt =====
-- internal/core/collaboration/workspace.go: a workspace, its members and its life cycle. A method that
-- mutates `*Workspace` returns the new record; every error is returned before anything is written.
-- The shared context is a component of its own (Collaboration/Context). `time.Now()` and
-- `uuid.New()` are the arguments `now` and `id`.
pub mod Members
pub mod Lifecycle
pub mod Ownership
pub mod Tests
use aps.Base.{
  ℕ, String, Bool, true, false, not, ◌&&◌, Option, none, some, List, [], ◌∷◌, ◌++◌, Result, ok, err,
  length, any, count, find, ltb, leb, ◌==◌, if◌then◌else◌, ◌>>=◌, ◌>>◌, refuse_if,
}
use aps.Collaboration.Types.{
  WorkspaceState, creating, active, closing, archived, unknown, is_valid_state, AgentRole, owner,
  is_valid_role, is_owner_role, AgentInfo, WorkspaceConfig, ConfigError, validate_config,
  PolicyConfig,
}

pub record Workspace : Type 0 where
  pub id : String
  pub config : WorkspaceConfig
  pub state : WorkspaceState
  pub agents : List AgentInfo
  pub policy : PolicyConfig
  pub created_at : ℕ
  pub updated_at : ℕ

pub data WorkspaceError : Type 0 where
  not_active already_in at_capacity not_in last_owner invalid_role : WorkspaceError
  invalid_state bad_transition : WorkspaceError

abbrev pub agent_online : ℕ → String → AgentRole → AgentInfo
agent_online now profile_id role = record {
  profile_id = profile_id;
  display_name = "";
  role = role;
  capabilities = [];
  joined_at = now;
  last_seen = now;
  session_id = "";
  status = "online";
}

-- `NewWorkspace`
unfoldable pub new_workspace : ℕ → String → WorkspaceConfig → Result ConfigError Workspace
unfolding validate_config
new_workspace now id config = do
  c ← validate_config config
  ok (record {
    id = id;
    config = c;
    state = active;
    agents = agent_online now c.owner_profile_id owner ∷ [];
    policy = record { default = c.default_policy; overrides = [] };
    created_at = now;
    updated_at = now;
  })

abbrev pub is_active : WorkspaceState → Bool
is_active active = true
is_active _ = false

abbrev pub is_member : String → AgentInfo → Bool
is_member profile_id a = a.profile_id == profile_id

-- The loop that counts the owners.
abbrev pub owner_count : List AgentInfo → ℕ
owner_count = count (λ a. is_owner_role a.role)

-- `AddAgent`
unfoldable pub add_agent :
    ℕ → Workspace → String → AgentRole → Result WorkspaceError (AgentInfo × Workspace)
add_agent now ws profile_id role = do
  refuse_if (not (is_active ws.state)) not_active
  refuse_if (any (is_member profile_id) ws.agents) already_in
  refuse_if (ltb 0 ws.config.max_agents && leb ws.config.max_agents (length ws.agents)) at_capacity
  let agent = agent_online now profile_id role
  ok (agent, record ws { agents = ws.agents ++ agent ∷ []; updated_at = now })

-- `append(s[:idx], s[idx+1:]...)` at the first entry with the profile.
remove_first : String → List AgentInfo → List AgentInfo
remove_first profile_id [] = []
remove_first profile_id (a ∷ others) =
    let rest = remove_first profile_id others in if is_member profile_id a then others else a ∷ rest

-- A write through `&ws.Agents[i]` at the first entry with the profile.
update_first : String → (AgentInfo → AgentInfo) → List AgentInfo → List AgentInfo
update_first profile_id f [] = []
update_first profile_id f (a ∷ others) =
    let rest = update_first profile_id f others in
    if is_member profile_id a then f a ∷ others else a ∷ rest

-- `RemoveAgent`
unfoldable pub remove_agent : ℕ → Workspace → String → Result WorkspaceError Workspace
unfolding remove_first
remove_agent now ws profile_id = elim (find (is_member profile_id) ws.agents) [
  | none ↦ err not_in
  | some a ↦ do
    refuse_if (is_owner_role a.role && leb (owner_count ws.agents) 1) last_owner
    ok (record ws { agents = remove_first profile_id ws.agents; updated_at = now })
]

-- `GetAgent`
unfoldable pub get_agent : Workspace → String → Result WorkspaceError AgentInfo
get_agent ws profile_id = elim (find (is_member profile_id) ws.agents) [
  | none ↦ err not_in
  | some a ↦ ok a
]

-- `SetAgentRole`
unfoldable pub set_agent_role : ℕ → Workspace → String → AgentRole → Result WorkspaceError Workspace
unfolding update_first
set_agent_role now ws profile_id role =
    if not (is_valid_role role)
    then err invalid_role
    else elim (find (is_member profile_id) ws.agents) [
      | none ↦ err not_in
      | some a ↦ do
        refuse_if
            (is_owner_role a.role && (not (is_owner_role role) && leb (owner_count ws.agents) 1))
            last_owner
        ok (record ws {
          agents = update_first profile_id (λ b. record b { role = role }) ws.agents;
          updated_at = now;
        })
    ]

-- `UpdateAgentStatus`
unfoldable pub update_agent_status :
    ℕ → Workspace → String → String → Result WorkspaceError Workspace
unfolding update_first
update_agent_status now ws profile_id status = elim (find (is_member profile_id) ws.agents) [
  | none ↦ err not_in
  | some a ↦ ok (record ws {
    agents = update_first profile_id (λ b. record b { status = status; last_seen = now }) ws.agents;
  })
]

-- The `switch` of `SetState`; a state that is none of the constants passes it.
abbrev pub transition_allowed : WorkspaceState → WorkspaceState → Bool
transition_allowed creating active = true
transition_allowed creating archived = true
transition_allowed creating _ = false
transition_allowed active closing = true
transition_allowed active archived = true
transition_allowed active _ = false
transition_allowed closing archived = true
transition_allowed closing _ = false
transition_allowed archived _ = false
transition_allowed (unknown s) _ = true

-- `SetState`
unfoldable pub set_state : ℕ → Workspace → WorkspaceState → Result WorkspaceError Workspace
set_state now ws state = do
  refuse_if (not (is_valid_state state)) invalid_state
  refuse_if (not (transition_allowed ws.state state)) bad_transition
  ok (record ws { state = state; updated_at = now })

-- `OnlineAgentCount`
unfoldable pub online_agent_count : Workspace → ℕ
online_agent_count ws = count (λ a. a.status == "online") ws.agents

-- `HasAgent`
unfoldable pub has_agent : Workspace → String → Bool
has_agent ws profile_id = any (is_member profile_id) ws.agents

-- `IsOwner`
unfoldable pub is_owner : Workspace → String → Bool
is_owner ws profile_id = any (λ a. is_member profile_id a && is_owner_role a.role) ws.agents
