-- ===== src/Registry/Calls.antt =====
-- internal/core/session/registry.go: the calls of the registry. A call that writes one row returns the rows and the
-- events that it publishes; CleanupInactive keeps the deletions that it did before an error. A call is given the time
-- and the note of its context.
use aps.Base.{
  ℕ, ◌+◌, String, Bool, true, not, ◌&&◌, none, some, List, [], ◌∷◌, Result, ok, err, map, keep,
  Dict, ltb, ◌==◌, if◌then◌else◌,
}
use aps.Registry.{
  SessionInfo, session_errored, status_rules, KvRows, Backend, RegistryError, session_exists,
  session_not_found, invalid_transition, SessionEvent, session_started, session_stopped,
  kv_get_session, kv_put_session, kv_delete_session, kv_list_sessions, registered, rewritten,
  merge_metadata, stop_reason, is_stopped,
}

-- What a call that writes one row returns.
abbrev pub Written : Type 0 → Type 0
Written E = Result (RegistryError E) (KvRows × List SessionEvent)

abbrev pub or_nil : {E : Type 0} → Result (RegistryError E) (List SessionInfo) → List SessionInfo
or_nil (err e) = []
or_nil (ok all) = all

abbrev pub with_events :
    {E : Type 0} → List SessionEvent → Result (RegistryError E) KvRows → Written E
with_events events (err e) = err e
with_events events (ok rows) = ok (rows, events)

-- The events of `UpdateStatusWithContext`.
abbrev pub status_events : String → String → String → SessionInfo → List SessionEvent
status_events note id status s =
    if not (s.status == status) && is_stopped status
    then session_stopped id s.profile_id (stop_reason status) note ∷ []
    else []

-- The test of the loop of `CleanupInactive`.
abbrev pub is_expired : ℕ → ℕ → SessionInfo → Bool
is_expired now timeout s = not (s.status == session_errored) && ltb (s.last_seen_at + timeout) now

abbrev pub also_removed :
    {E : Type 0}
    → SessionInfo
    → KvRows × Result (RegistryError E) (List SessionInfo)
    → KvRows × Result (RegistryError E) (List SessionInfo)
also_removed s later = (later.0, elim later.1 [ err e ↦ err e | ok removed ↦ ok (s ∷ removed) ])

abbrev pub expired_event : SessionInfo → SessionEvent
expired_event s = session_stopped s.id s.profile_id "expired" ""

module _ {E : Type 0} (backend : Backend E) where
  -- A row is written, and then the events are published.
  abbrev pub persist : KvRows → SessionInfo → List SessionEvent → Written E
  persist rows s events = with_events events (kv_put_session backend rows s)

  -- `RegisterWithContext`
  unfoldable pub register : ℕ → String → KvRows → SessionInfo → Written E
  register now note rows s = elim (kv_get_session backend rows s.id) [
    | err e ↦ err e
    | ok (some t) ↦ err session_exists
    | ok none ↦
        persist rows (registered now s)
          (session_started s.id s.profile_id s.command s.pid s.tier note ∷ [])
  ]

  -- `UnregisterWithContext`
  unfoldable pub unregister : String → KvRows → String → Written E
  unregister note rows id = elim (kv_get_session backend rows id) [
    | err e ↦ err e
    | ok prev ↦ elim (kv_delete_session backend rows id) [
      | err e ↦ err e
      | ok rows' ↦ ok (
        rows',
        elim prev [ none ↦ [] | some s ↦ session_stopped id s.profile_id "unregister" note ∷ [] ],
      )
    ]
  ]

  -- `Get`
  unfoldable pub get_info : KvRows → String → Result (RegistryError E) SessionInfo
  get_info rows id = elim (kv_get_session backend rows id) [
    | err e ↦ err e
    | ok none ↦ err session_not_found
    | ok (some s) ↦ ok s
  ]

  -- `checkTransition`
  unfoldable pub check_transition : String → String → Bool
  check_transition from to = if from == to then true else backend.transition status_rules from to

  -- `UpdateStatusWithContext`
  unfoldable pub update_session_status : ℕ → String → KvRows → String → String → Written E
  update_session_status now note rows id status = elim (get_info rows id) [
    | err e ↦ err e
    | ok s ↦
        if check_transition s.status status
        then persist rows (rewritten now status s.environment s) (status_events note id status s)
        else err invalid_transition
  ]

  -- `UpdateHeartbeat`
  unfoldable pub update_heartbeat : ℕ → KvRows → String → Written E
  update_heartbeat now rows id = elim (get_info rows id) [
    | err e ↦ err e
    | ok s ↦ persist rows (rewritten now s.status s.environment s) []
  ]

  -- `UpdateSessionMetadata`
  unfoldable pub update_metadata : ℕ → KvRows → String → Dict String → Written E
  update_metadata now rows id metadata = elim (get_info rows id) [
    | err e ↦ err e
    | ok s ↦ persist rows (rewritten now s.status (merge_metadata s.environment metadata) s) []
  ]

  -- The loop of `CleanupInactive`: the rows it leaves, and the sessions that it removed.
  unfoldable pub remove_expired :
      ℕ → ℕ → KvRows → List SessionInfo → KvRows × Result (RegistryError E) (List SessionInfo)
  remove_expired now timeout rows [] = (rows, ok [])
  remove_expired now timeout rows (s ∷ sessions) =
      let kept = remove_expired now timeout rows sessions in
      if is_expired now timeout s
      then elim (kv_delete_session backend rows s.id) [
        | err e ↦ (rows, err e)
        | ok rows' ↦ also_removed s (remove_expired now timeout rows' sessions)
      ]
      else kept

  -- What `CleanupInactive` does with the sessions that it has listed.
  abbrev pub cleanup_listed :
      ℕ
      → ℕ
      → KvRows
      → Result (RegistryError E) (List SessionInfo)
      → KvRows × Result (RegistryError E) (List String × List SessionEvent)
  cleanup_listed now timeout rows (err e) = (rows, err e)
  cleanup_listed now timeout rows (ok sessions) =
      let done = remove_expired now timeout rows sessions in
      (
        done.0,
        elim done.1 [
          | err e ↦ err e
          | ok removed ↦ ok (map (λ s. s.id) removed, map expired_event removed)
        ],
      )

  -- `CleanupInactive`: the rows, and the IDs with the events.
  unfoldable pub cleanup_inactive :
      ℕ → ℕ → KvRows → KvRows × Result (RegistryError E) (List String × List SessionEvent)
  cleanup_inactive now timeout rows =
      cleanup_listed now timeout rows (kv_list_sessions backend rows)

  -- `List`, which has no error
  unfoldable pub list_infos : KvRows → List SessionInfo
  list_infos rows = or_nil (kv_list_sessions backend rows)

  -- `ListByProfile`, `ListByStatus`, `ListByTier` and `ListByType`
  unfoldable pub list_by_profile : KvRows → String → List SessionInfo
  list_by_profile rows profile_id = keep (λ s. s.profile_id == profile_id) (list_infos rows)

  unfoldable pub list_by_status : KvRows → String → List SessionInfo
  list_by_status rows status = keep (λ s. s.status == status) (list_infos rows)

  unfoldable pub list_by_tier : KvRows → String → List SessionInfo
  list_by_tier rows tier = keep (λ s. s.tier == tier) (list_infos rows)

  unfoldable pub list_by_type : KvRows → String → List SessionInfo
  list_by_type rows type = keep (λ s. s.type == type) (list_infos rows)

-- The calls that write.
pub data RegistryCall : Type 0 where
  register_call : ℕ → String → SessionInfo → RegistryCall
  unregister_call : String → String → RegistryCall
  status_call : ℕ → String → String → String → RegistryCall
  heartbeat_call : ℕ → String → RegistryCall
  metadata_call : ℕ → String → Dict String → RegistryCall
  cleanup_call : ℕ → ℕ → RegistryCall

-- The rows after a call; an error of a call that writes one row leaves them.
abbrev pub rows_after : {E : Type 0} → KvRows → Written E → KvRows
rows_after rows (err e) = rows
rows_after rows (ok done) = done.0

unfoldable pub run_call : {E : Type 0} → Backend E → KvRows → RegistryCall → KvRows
run_call backend rows (register_call now note s) =
    rows_after rows (register backend now note rows s)
run_call backend rows (unregister_call note id) = rows_after rows (unregister backend note rows id)
run_call backend rows (status_call now note id status) =
    rows_after rows (update_session_status backend now note rows id status)
run_call backend rows (heartbeat_call now id) =
    rows_after rows (update_heartbeat backend now rows id)
run_call backend rows (metadata_call now id metadata) =
    rows_after rows (update_metadata backend now rows id metadata)
run_call backend rows (cleanup_call now timeout) = (cleanup_inactive backend now timeout rows).0

unfoldable pub run_calls : {E : Type 0} → Backend E → KvRows → List RegistryCall → KvRows
run_calls backend rows [] = rows
run_calls backend rows (call ∷ calls) = run_calls backend (run_call backend rows call) calls
