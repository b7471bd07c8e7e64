-- ===== src/Collaboration/Types.antt =====
-- internal/core/collaboration/types.go: the enumerations and records of a workspace. A Go enumeration
-- is a string type, so each has a last constructor for a text that is none of its constants.
use aps.Base.{
  ℕ, String, Bool, true, false, ◌||◌, Option, none, some, List, Result, ok, lookup, nat_eq, ◌==◌,
  if◌then◌else◌, ◌>>◌, refuse_if,
}

pub data WorkspaceState : Type 0 where
  creating active closing archived : WorkspaceState
  unknown : String → WorkspaceState

-- `(s WorkspaceState) Validate() == nil`
abbrev pub is_valid_state : WorkspaceState → Bool
is_valid_state (unknown s) = false
is_valid_state _ = true

pub data AgentRole : Type 0 where
  owner contributor observer : AgentRole
  other : String → AgentRole

-- `(r AgentRole) Validate() == nil`
abbrev pub is_valid_role : AgentRole → Bool
is_valid_role (other s) = false
is_valid_role _ = true

-- `a == b` on roles, and the key equality of `map[AgentRole][]Permission`.
abbrev pub role_eq : AgentRole → AgentRole → Bool
role_eq owner owner = true
role_eq contributor contributor = true
role_eq observer observer = true
role_eq (other s) (other t) = s == t
role_eq _ _ = false

abbrev pub is_owner_role : AgentRole → Bool
is_owner_role owner = true
is_owner_role _ = false

unfoldable pub can_write : AgentRole → Bool
can_write r = role_eq r owner || role_eq r contributor

unfoldable pub can_admin : AgentRole → Bool
can_admin r = role_eq r owner

pub data ConflictType : Type 0 where
  write ordering lock capability : ConflictType

pub data Permission : Type 0 where
  perm_read perm_write perm_delete perm_admin : Permission

abbrev pub perm_eq : Permission → Permission → Bool
perm_eq perm_read perm_read = true
perm_eq perm_write perm_write = true
perm_eq perm_delete perm_delete = true
perm_eq perm_admin perm_admin = true
perm_eq _ _ = false

-- `none_given` is the empty string.
pub data ResolutionStrategy : Type 0 where
  consensus priority voting arbitration keep_first keep_last rollback merge : ResolutionStrategy
  none_given : ResolutionStrategy

-- Durations are nanoseconds; no caller sets a negative one. `max_agents` is an `int` that is not
-- negative here.
pub record WorkspaceConfig : Type 0 where
  pub name : String
  pub description : String
  pub owner_profile_id : String
  pub default_policy : ResolutionStrategy
  pub heartbeat_interval : ℕ
  pub session_timeout : ℕ
  pub max_agents : ℕ

pub data ConfigError : Type 0 where
  name_required owner_required : ConfigError

abbrev pub second : ℕ
second = 1000000000

abbrev or_default : ℕ → ℕ → ℕ
or_default n d = if nat_eq n 0 then d else n

abbrev or_priority : ResolutionStrategy → ResolutionStrategy
or_priority none_given = priority
or_priority s = s

-- `(c *WorkspaceConfig) Validate()`: the config with its defaults filled in, or the error.
unfoldable pub validate_config : WorkspaceConfig → Result ConfigError WorkspaceConfig
validate_config c = do
  refuse_if (c.name == "") name_required
  refuse_if (c.owner_profile_id == "") owner_required
  ok (record c {
    heartbeat_interval = or_default c.heartbeat_interval 10000000000;
    session_timeout = or_default c.session_timeout 30000000000;
    max_agents = or_default c.max_agents 50;
    default_policy = or_priority c.default_policy;
  })

-- Times are nanoseconds since some fixed moment. `metadata` is never read.
pub record AgentInfo : Type 0 where
  pub profile_id : String
  pub display_name : String
  pub role : AgentRole
  pub capabilities : List String
  pub joined_at : ℕ
  pub last_seen : ℕ
  pub session_id : String
  pub status : String

pub record ConflictResolution : Type 0 where
  pub strategy : ResolutionStrategy
  pub resolved_by : String
  pub timestamp : ℕ

pub record Conflict : Type 0 where
  pub id : String
  pub workspace_id : String
  pub type : ConflictType
  pub resource : String
  pub agent_ids : List String
  pub resolution : Option ConflictResolution
  pub detected_at : ℕ

abbrev pub is_resolved : Conflict → Bool
is_resolved c = elim c.resolution [ none ↦ false | some r ↦ true ]

pub record PolicyConfig : Type 0 where
  pub default : ResolutionStrategy
  pub overrides : List (String × ResolutionStrategy)

-- `GetStrategy`
unfoldable pub get_strategy : PolicyConfig → String → ResolutionStrategy
get_strategy p resource = elim (lookup resource p.overrides) [ some s ↦ s | none ↦ p.default ]
