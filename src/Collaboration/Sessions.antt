-- ===== src/Collaboration/Sessions.antt =====
-- internal/core/collaboration/session.go and session_service.go, with SessionState of types.go: the sessions of the
-- agents of all workspaces. `domain.Service` of hop.top/kit is the parameter `service`. A call is one step, but the
-- manager has no lock of its own: `admit_session` is the part of CreateSession after its check, so that calls that
-- interleave there can be told. Left out: the alias events after a call.
pub mod Soundness
pub mod Uniqueness
pub mod Interleaving
pub mod Expiry
pub mod Tests
use aps.Base.{
  ℕ, ◌+◌, String, Bool, true, false, not, ◌&&◌, ◌||◌, ◌≡◌, Option, none, some, List, [], ◌∷◌,
  Result, ok, err, any, find, keep, Dict, lookup, insert, delete, ltb, ◌==◌, if◌then◌else◌,
}
use aps.Collaboration.Context.{RepositoryError, conflict, missing}

-- `other` is a text that is none of the four.
pub data SessionState : Type 0 where
  joining active leaving closed : SessionState
  other : String → SessionState

abbrev pub is_active : SessionState → Bool
is_active active = true
is_active _ = false

abbrev pub is_closed_state : SessionState → Bool
is_closed_state closed = true
is_closed_state _ = false

abbrev pub is_valid_session_state : SessionState → Bool
is_valid_session_state (other s) = false
is_valid_session_state _ = true

pub record Session : Type 0 where
  pub id : String
  pub workspace_id : String
  pub profile_id : String
  pub state : SessionState
  pub joined_at : ℕ
  pub last_seen : ℕ
  pub expires_at : ℕ

-- `sessionRepository`
abbrev pub Sessions : Type 0
Sessions = Dict Session

-- `sessionRepository.Create`
unfoldable pub create_in : Sessions → Session → Result RepositoryError Sessions
create_in sessions s = elim (lookup s.id sessions) [
  | some t ↦ err conflict
  | none ↦ ok (insert s.id s sessions)
]

-- `sessionRepository.Update`
unfoldable pub update_in : Sessions → Session → Result RepositoryError Sessions
update_in sessions s = elim (lookup s.id sessions) [
  | some t ↦ ok (insert s.id s sessions)
  | none ↦ err missing
]

-- `sessionRepository.Delete`
unfoldable pub delete_in : Sessions → String → Result RepositoryError Sessions
delete_in sessions id = elim (lookup id sessions) [
  | some t ↦ ok (delete id sessions)
  | none ↦ err missing
]

-- `sessionRepository.List` of the empty query, for the list's order of the map
abbrev pub all_sessions : Sessions → List Session
all_sessions [] = []
all_sessions (entry ∷ rest) = entry.1 ∷ all_sessions rest

-- The test that the look-ups of an agent's session share.
abbrev pub is_active_of : String → String → Session → Bool
is_active_of workspace_id profile_id s =
    (s.workspace_id == workspace_id) && ((s.profile_id == profile_id) && is_active s.state)

-- `hasActiveSession`
unfoldable pub has_active_session : Sessions → String → String → Bool
has_active_session sessions workspace_id profile_id =
    any (is_active_of workspace_id profile_id) (all_sessions sessions)

-- `sessionValidator.Validate(s) == nil`
unfoldable pub is_valid_session : Session → Bool
is_valid_session s =
    not (s.id == "")
    && (not (s.workspace_id == "") && (not (s.profile_id == "") && is_valid_session_state s.state))

-- The service over the repository: it validates, gives subscribers the chance to veto, and runs the repository's
-- operation. Where it returns no error, the validator has passed and the operation has run; where it returns one,
-- nothing was written.
pub record SessionService (E : Type 0) : Type 0 where
  pub create : Sessions → Session → Result E Sessions
  pub update : Sessions → Session → Result E Sessions
  pub remove : Sessions → String → Result E Sessions
  pub create_ran :
      (sessions sessions' : Sessions) (s : Session)
      → create sessions s ≡ ok sessions'
      → (is_valid_session s ≡ true) × (create_in sessions s ≡ ok sessions')
  pub update_ran :
      (sessions sessions' : Sessions) (s : Session)
      → update sessions s ≡ ok sessions'
      → (is_valid_session s ≡ true) × (update_in sessions s ≡ ok sessions')
  pub remove_ran :
      (sessions sessions' : Sessions) (id : String)
      → remove sessions id ≡ ok sessions'
      → delete_in sessions id ≡ ok sessions'

pub data SessionError (E : Type 0) : Type 0 where
  duplicate_active not_found not_active lost_session : SessionError E
  service_error : E → SessionError E

-- The session that CreateSession writes.
abbrev pub new_session : ℕ → String → String → String → ℕ → Session
new_session now id workspace_id profile_id timeout = record {
  id = id;
  workspace_id = workspace_id;
  profile_id = profile_id;
  state = active;
  joined_at = now;
  last_seen = now;
  expires_at = now + timeout;
}

-- `now.After(s.ExpiresAt)`, for an active session of the workspace
abbrev pub is_due : String → ℕ → Session → Bool
is_due workspace_id now s =
    (s.workspace_id == workspace_id) && (is_active s.state && ltb s.expires_at now)

abbrev pub is_closed_of : String → Session → Bool
is_closed_of workspace_id s = (s.workspace_id == workspace_id) && is_closed_state s.state

abbrev pub with_closed : Session → Session
with_closed s = record s { state = closed }

abbrev pub seen : ℕ → ℕ → Session → Session
seen now timeout s = record s { last_seen = now; expires_at = now + timeout }

-- `GetSession`
unfoldable pub get_session : Sessions → String → Option Session
get_session sessions id = lookup id sessions

-- `GetAgentSession`
unfoldable pub get_agent_session : Sessions → String → String → Option Session
get_agent_session sessions workspace_id profile_id =
    find (is_active_of workspace_id profile_id) (all_sessions sessions)

-- `ListSessions`
unfoldable pub list_sessions : Sessions → String → List Session
list_sessions sessions workspace_id =
    keep (λ s. s.workspace_id == workspace_id) (all_sessions sessions)

-- `ListActiveSessions`
unfoldable pub list_active_sessions : Sessions → String → List Session
list_active_sessions sessions workspace_id =
    keep (λ s. (s.workspace_id == workspace_id) && is_active s.state) (all_sessions sessions)

module _ {E : Type 0} (service : SessionService E) where
  open service use {create, update, remove}

  -- CreateSession after its check.
  unfoldable pub admit_session : Sessions → Session → Result (SessionError E) (Session × Sessions)
  admit_session sessions s = elim (create sessions s) [
    | err e ↦ err (service_error e)
    | ok sessions' ↦ elim (lookup s.id sessions') [
      | none ↦ err lost_session
      | some got ↦ ok (got, sessions')
    ]
  ]

  -- `CreateSession`; `now` and `id` are the clock's time and the new random ID
  unfoldable pub create_session :
      ℕ → String → Sessions → String → String → ℕ → Result (SessionError E) (Session × Sessions)
  create_session now id sessions workspace_id profile_id timeout =
      if has_active_session sessions workspace_id profile_id
      then err duplicate_active
      else admit_session sessions (new_session now id workspace_id profile_id timeout)

  -- `UpdateSession`
  unfoldable pub update_session : Sessions → Session → Result (SessionError E) Sessions
  update_session sessions s = elim (update sessions s) [
    | err e ↦ err (service_error e)
    | ok sessions' ↦ ok sessions'
  ]

  -- `DeleteSession`
  unfoldable pub delete_session : Sessions → String → Result (SessionError E) Sessions
  delete_session sessions id = elim (remove sessions id) [
    | err e ↦ err (service_error e)
    | ok sessions' ↦ ok sessions'
  ]

  -- `Heartbeat`
  unfoldable pub session_heartbeat : ℕ → Sessions → String → ℕ → Result (SessionError E) Sessions
  unfolding update_session
  session_heartbeat now sessions id timeout = elim (lookup id sessions) [
    | none ↦ err not_found
    | some s ↦
        if not (is_active s.state)
        then err not_active
        else update_session sessions (seen now timeout s)
  ]

  -- `CloseSession`
  unfoldable pub close_session : Sessions → String → Result (SessionError E) Sessions
  unfolding update_session
  close_session sessions id = elim (lookup id sessions) [
    | none ↦ err not_found
    | some s ↦ update_session sessions (with_closed s)
  ]

  -- The loop of ExpireSessions over the sessions that were read: the store and the profiles that it returns.
  unfoldable pub expire_from : String → ℕ → Sessions → List Session → Sessions × List String
  expire_from workspace_id now sessions [] = (sessions, [])
  expire_from workspace_id now sessions (s ∷ rest) =
      let kept = expire_from workspace_id now sessions rest in
      if is_due workspace_id now s
      then elim (update sessions (with_closed s)) [
        | err e ↦ kept
        | ok sessions' ↦
            let later = expire_from workspace_id now sessions' rest in
            (later.0, s.profile_id ∷ later.1)
      ]
      else kept

  -- `ExpireSessions`
  unfoldable pub expire_sessions : ℕ → Sessions → String → Sessions × List String
  expire_sessions now sessions workspace_id =
      expire_from workspace_id now sessions (all_sessions sessions)

  -- The loop of CleanupClosed.
  unfoldable pub cleanup_from : String → Sessions → List Session → Sessions × ℕ
  cleanup_from workspace_id sessions [] = (sessions, 0)
  cleanup_from workspace_id sessions (s ∷ rest) =
      let kept = cleanup_from workspace_id sessions rest in
      if is_closed_of workspace_id s
      then elim (remove sessions s.id) [
        | err e ↦ kept
        | ok sessions' ↦
            let later = cleanup_from workspace_id sessions' rest in (later.0, later.1 + 1)
      ]
      else kept

  -- `CleanupClosed`
  unfoldable pub cleanup_closed : Sessions → String → Sessions × ℕ
  cleanup_closed sessions workspace_id = cleanup_from workspace_id sessions (all_sessions sessions)
