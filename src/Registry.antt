-- ===== src/Registry.antt =====
-- internal/core/session/registry.go, types.go and kvstore.go: the sessions of the runtime, in the rows of a key-value
-- store. `kv.Store` of hop.top/kit, `domain.StateMachine` of hop.top/kit and `encoding/json` are the parameter `backend`.
-- The registry's mutex is held for the whole of a call that writes, so a call is one step; `ensureStore` has opened the
-- store. An environment is a map from texts (nil is the empty one).
pub mod Calls
pub mod Rows
pub mod Listing
pub mod Sweeping
pub mod Effects
pub mod Guards
pub mod Runs
pub mod Migration
pub mod Table
pub mod Tests
use Prim.Native.String.{◌++◌ as text_append}
use aps.Base.{
  ℕ, ◌+◌, String, Bool, true, false, not, ◌&&◌, ◌||◌, ◌≡◌, Option, none, some, List, [], ◌∷◌, ◌++◌,
  Result, ok, err, ◌>>=◌, ◌>>◌, refuse_if, map, keep, contains, times, Dict, lookup, insert,
  has_key, starts_with, ltb, ◌==◌, if◌then◌else◌,
}

-- `SessionStatus`, `SessionTier` and `SessionType` are texts.
abbrev pub session_active : String
session_active = "active"

abbrev pub session_inactive : String
session_inactive = "inactive"

abbrev pub session_errored : String
session_errored = "errored"

pub record SessionInfo : Type 0 where
  pub id : String
  pub profile_id : String
  pub profile_dir : String
  pub command : String
  pub pid : ℕ
  pub status : String
  pub tier : String
  pub type : String
  pub tmux_socket : String
  pub tmux_session : String
  pub container_id : String
  pub created_at : ℕ
  pub last_seen_at : ℕ
  pub environment : Dict String
  pub workspace_id : String

-- `statusRules`
abbrev pub status_rules : Dict (List String)
status_rules =
    ("", session_active ∷ session_inactive ∷ session_errored ∷ [])
    ∷ (session_active, session_inactive ∷ session_errored ∷ [])
    ∷ (session_inactive, session_active ∷ session_errored ∷ [])
    ∷ (session_errored, [])
    ∷ []

-- The rows of the store.
abbrev pub KvRows : Type 0
KvRows = Dict String

-- The libraries that the registry calls. A call of the store that returns no error has done what it says; one that
-- returns an error has written nothing. A session that was marshalled is read back the same. The state machine lets a
-- transition pass where the rules list it.
pub record Backend (E : Type 0) : Type 0 where
  pub get : KvRows → String → Result E (Option String)
  pub put : KvRows → String → String → Result E KvRows
  pub remove : KvRows → String → Result E KvRows
  pub list : KvRows → String → Result E (List String)
  pub marshal : SessionInfo → Option String
  pub unmarshal : String → Option SessionInfo
  pub transition : Dict (List String) → String → String → Bool
  pub get_ran :
      (rows : KvRows) (k : String) (v : Option String) → get rows k ≡ ok v → v ≡ lookup k rows
  pub put_ran :
      (rows rows' : KvRows) (k v : String)
      → put rows k v ≡ ok rows'
      → (x : String) → lookup x rows' ≡ (if k == x then some v else lookup x rows)
  pub remove_ran :
      (rows rows' : KvRows) (k : String)
      → remove rows k ≡ ok rows'
      → (x : String) → lookup x rows' ≡ (if k == x then none else lookup x rows)
  pub list_ran :
      (rows : KvRows) (prefix : String) (keys : List String)
      → list rows prefix ≡ ok keys
      → (x : String) → times x keys ≡ (if starts_with prefix x && has_key x rows then 1 else 0)
  pub marshal_read :
      (s : SessionInfo) (text : String) → marshal s ≡ some text → unmarshal text ≡ some s
  pub transition_rules :
      (rules : Dict (List String)) (from to : String)
      → transition rules from to
        ≡ elim (lookup from rules) [ none ↦ false | some targets ↦ contains targets to ]

pub data RegistryError (E : Type 0) : Type 0 where
  session_exists session_not_found invalid_transition cannot_marshal cannot_unmarshal :
      RegistryError E
  store_failed : E → RegistryError E

-- The events of the bus, with their payloads.
pub data SessionEvent : Type 0 where
  session_started : String → String → String → ℕ → String → String → SessionEvent
  session_stopped : String → String → String → String → SessionEvent

-- `sessionKeyPrefix`
abbrev pub session_prefix : String
session_prefix = "session/"

-- `sessionKey`
abbrev pub session_key : String → String
session_key id = text_append session_prefix id

module _ {E : Type 0} where
  abbrev pub from_store : {A : Type 0} → Result E A → Result (RegistryError E) A
  from_store (ok a) = ok a
  from_store (err e) = err (store_failed e)

  abbrev pub read_row : Backend E → String → Result (RegistryError E) SessionInfo
  read_row backend raw = elim (backend.unmarshal raw) [
    | none ↦ err cannot_unmarshal
    | some s ↦ ok s
  ]

  -- `kvGetSession`
  unfoldable pub kv_get_session :
      Backend E → KvRows → String → Result (RegistryError E) (Option SessionInfo)
  kv_get_session backend rows id = elim (backend.get rows (session_key id)) [
    | err e ↦ err (store_failed e)
    | ok none ↦ ok none
    | ok (some raw) ↦ elim (backend.unmarshal raw) [
      | none ↦ err cannot_unmarshal
      | some s ↦ ok (some s)
    ]
  ]

  -- `kvPutSessionLocked`
  abbrev pub kv_put_session : Backend E → KvRows → SessionInfo → Result (RegistryError E) KvRows
  kv_put_session backend rows s = elim (backend.marshal s) [
    | none ↦ err cannot_marshal
    | some raw ↦ from_store (backend.put rows (session_key s.id) raw)
  ]

  -- `kvDeleteSession`
  abbrev pub kv_delete_session : Backend E → KvRows → String → Result (RegistryError E) KvRows
  kv_delete_session backend rows id = from_store (backend.remove rows (session_key id))

  -- The loop of `kvListSessions`.
  unfoldable pub read_sessions :
      Backend E → KvRows → List String → Result (RegistryError E) (List SessionInfo)
  read_sessions backend rows [] = ok []
  read_sessions backend rows (k ∷ keys) = elim (backend.get rows k) [
    | err e ↦ err (store_failed e)
    | ok none ↦ read_sessions backend rows keys
    | ok (some raw) ↦ elim (backend.unmarshal raw) [
      | none ↦ err cannot_unmarshal
      | some s ↦ elim (read_sessions backend rows keys) [ err e ↦ err e | ok out ↦ ok (s ∷ out) ]
    ]
  ]

  -- `kvListSessions`
  unfoldable pub kv_list_sessions : Backend E → KvRows → Result (RegistryError E) (List SessionInfo)
  kv_list_sessions backend rows = elim (backend.list rows session_prefix) [
    | err e ↦ err (store_failed e)
    | ok keys ↦ read_sessions backend rows keys
  ]

abbrev pub registered : ℕ → SessionInfo → SessionInfo
registered now s = record {
  id = s.id;
  profile_id = s.profile_id;
  profile_dir = s.profile_dir;
  command = s.command;
  pid = s.pid;
  status = s.status;
  tier = s.tier;
  type = s.type;
  tmux_socket = s.tmux_socket;
  tmux_session = s.tmux_session;
  container_id = s.container_id;
  created_at = now;
  last_seen_at = now;
  environment = s.environment;
  workspace_id = s.workspace_id;
}

-- The session with the status, the time and the environment that a call writes.
abbrev pub rewritten : ℕ → String → Dict String → SessionInfo → SessionInfo
rewritten now status environment s = record {
  id = s.id;
  profile_id = s.profile_id;
  profile_dir = s.profile_dir;
  command = s.command;
  pid = s.pid;
  status = status;
  tier = s.tier;
  type = s.type;
  tmux_socket = s.tmux_socket;
  tmux_session = s.tmux_session;
  container_id = s.container_id;
  created_at = s.created_at;
  last_seen_at = now;
  environment = environment;
  workspace_id = s.workspace_id;
}

-- The loop that copies the metadata.
unfoldable pub merge_metadata : Dict String → Dict String → Dict String
merge_metadata environment [] = environment
merge_metadata environment (entry ∷ metadata) =
    merge_metadata (insert entry.0 entry.1 environment) metadata

-- Why `UpdateStatus` tells that a session has stopped.
abbrev pub stop_reason : String → String
stop_reason status = if status == session_errored then "errored" else "inactive"

abbrev pub is_stopped : String → Bool
is_stopped status = (status == session_inactive) || (status == session_errored)
