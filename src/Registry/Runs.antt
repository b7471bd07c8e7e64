-- ===== src/Registry/Runs.antt =====
-- internal/core/session/registry.go: runs of any calls.
use aps.Base.{
  String, true, ◌≡◌, ◌≢◌, sym, ap, ◌∙◌, subst, inl, inr, some, List, [], ◌∷◌, All, ok, Bool-cases,
  lookup, ◌==◌, arith, eq_iff,
}
use aps.Registry.{
  SessionInfo, session_errored, status_rules, KvRows, Backend, kv_put_session, registered,
  rewritten, merge_metadata,
}
use aps.Registry.Calls.{
  check_transition, update_heartbeat, update_metadata, RegistryCall, register_call, unregister_call,
  status_call, heartbeat_call, metadata_call, cleanup_call, run_call, run_calls,
}
use aps.Registry.Rows.{
  stored, IsSound, stored-id, stored-kv_put_session, IsSound-kv_put_session,
  stored-kv_delete_session, IsSound-kv_delete_session,
}
use aps.Registry.Sweeping.{cleanup_inactive_keeps, IsSound-cleanup_inactive}
use aps.Registry.Guards.{register_lem, unregister_lem, status_lem, refresh_lem}

-- The call is no Unregister of this ID.
abbrev pub Spares : String → RegistryCall → Type 0
Spares id (unregister_call note x) = x ≢ id
Spares id _ = Unit

module _ {E : Type 0} (backend : Backend E) where
  -- The session that an ID names is there and errored.
  abbrev pub IsErrored : KvRows → String → Type 0
  IsErrored rows id =
      (s : SessionInfo) × (stored backend rows id ≡ some s) × (s.status ≡ session_errored)

  IsSound-run_call :
      (rows : KvRows) (call : RegistryCall)
      → IsSound backend rows
      → IsSound backend (run_call backend rows call)
  unfolding run_call update_heartbeat update_metadata
  IsSound-run_call rows (register_call now note s) sound =
      register_lem backend (IsSound backend) now note rows s sound
        (λ absent rows' put. IsSound-kv_put_session backend rows rows' (registered now s) put sound)
  IsSound-run_call rows (unregister_call note id) sound =
      unregister_lem backend (IsSound backend) note rows id sound
        (λ rows' ran. IsSound-kv_delete_session backend rows rows' id ran sound)
  IsSound-run_call rows (status_call now note id status) sound =
      status_lem backend (IsSound backend) now note rows id status sound (λ s at passes rows' put.
        IsSound-kv_put_session backend rows rows' (rewritten now status s.environment s) put sound)
  IsSound-run_call rows (heartbeat_call now id) sound =
      refresh_lem backend (IsSound backend) rows id (λ s. rewritten now s.status s.environment s)
        sound
        (λ s at rows' put.
          IsSound-kv_put_session backend rows rows' (rewritten now s.status s.environment s) put
            sound)
  IsSound-run_call rows (metadata_call now id metadata) sound =
      refresh_lem backend (IsSound backend) rows id
        (λ s. rewritten now s.status (merge_metadata s.environment metadata) s) sound
        (λ s at rows' put.
          IsSound-kv_put_session backend rows rows'
            (rewritten now s.status (merge_metadata s.environment metadata) s) put sound)
  IsSound-run_call rows (cleanup_call now timeout) sound =
      IsSound-cleanup_inactive backend now timeout rows sound

  -- Writing a session that is errored where it has the ID.
  IsErrored-kv_put_session :
      (rows rows' : KvRows) (id : String) (t : SessionInfo)
      → IsErrored rows id
      → (t.id ≡ id → t.status ≡ session_errored)
      → kv_put_session backend rows t ≡ ok rows'
      → IsErrored rows' id
  IsErrored-kv_put_session rows rows' id t (s, at, errored) same_status put =
      elim (Bool-cases (t.id == id)) [
        | inl here ↦ (
          t,
          ground (arith, here, stored-kv_put_session backend rows rows' t put id),
          same_status ((eq_iff t.id id).0 here),
        )
        | inr other ↦ (
          s,
          ground (arith, at, other, stored-kv_put_session backend rows rows' t put id),
          errored,
        )
      ]

  -- An errored session has no other status after UpdateStatus.
  check_transition-errored :
      (to : String) → check_transition backend session_errored to ≡ true → to ≡ session_errored
  unfolding check_transition lookup
  check_transition-errored to h = elim (Bool-cases (session_errored == to)) [
    | inl same ↦ sym ((eq_iff session_errored to).0 same)
    | inr other ↦
        absurd (ground (arith, h, other, backend.transition_rules status_rules session_errored to))
  ]

  -- The session that a call reads is the errored one, where it has the ID.
  same_session :
      (rows : KvRows) (id x : String) (s : SessionInfo)
      → IsSound backend rows
      → IsErrored rows id
      → stored backend rows x ≡ some s
      → s.id ≡ id
      → s.status ≡ session_errored
  same_session rows id x s sound (t, at, errored) found same =
      let here : x ≡ id = sym (stored-id backend rows x s sound found) ∙ same in
      let one : s ≡ t = ground (arith, sym found ∙ ap (stored backend rows) here ∙ at) in
      ap (λ r. r.status) one ∙ errored

  IsErrored-run_call :
      (rows : KvRows) (id : String) (call : RegistryCall)
      → IsSound backend rows
      → Spares id call
      → IsErrored rows id
      → IsErrored (run_call backend rows call) id
  unfolding run_call update_heartbeat update_metadata
  IsErrored-run_call rows id (register_call now note s) sound spares (t, at, errored) =
      register_lem backend (λ r. IsErrored r id) now note rows s (t, at, errored)
        (λ absent rows' put.
          IsErrored-kv_put_session rows rows' id (registered now s) (t, at, errored)
            (λ same. absurd (ground (arith, at, absent, ap (stored backend rows) same))) put)
  IsErrored-run_call rows id (unregister_call note x) sound spares (s, at, errored) =
      unregister_lem backend (λ r. IsErrored r id) note rows x (s, at, errored)
        (λ rows' ran. (
          s,
          ground (
            arith,
            at,
            spares,
            eq_iff x id,
            stored-kv_delete_session backend rows rows' x ran id,
          ),
          errored,
        ))
  IsErrored-run_call rows id (status_call now note x status) sound spares h =
      status_lem backend (λ r. IsErrored r id) now note rows x status h
        (λ s at passes rows' put.
          IsErrored-kv_put_session rows rows' id (rewritten now status s.environment s) h
            (λ same. check_transition-errored status (
              subst (λ z. check_transition backend z status ≡ true)
                (same_session rows id x s sound h at same) passes))
            put)
  IsErrored-run_call rows id (heartbeat_call now x) sound spares h =
      refresh_lem backend (λ r. IsErrored r id) rows x (λ s. rewritten now s.status s.environment s)
        h
        (λ s at rows' put.
          IsErrored-kv_put_session rows rows' id (rewritten now s.status s.environment s) h
            (same_session rows id x s sound h at) put)
  IsErrored-run_call rows id (metadata_call now x metadata) sound spares h =
      refresh_lem backend (λ r. IsErrored r id) rows x
        (λ s. rewritten now s.status (merge_metadata s.environment metadata) s) h
        (λ s at rows' put.
          IsErrored-kv_put_session rows rows' id
            (rewritten now s.status (merge_metadata s.environment metadata) s) h
            (same_session rows id x s sound h at) put)
  IsErrored-run_call rows id (cleanup_call now timeout) sound spares (s, at, errored) = (
    s,
    cleanup_inactive_keeps backend now timeout rows id sound
          (ground (arith, at, errored, eq_iff s.status session_errored))
        ∙ at,
    errored,
  )

  -- In rows that each hold a session under its own ID, an errored session stays and stays errored, whatever calls
  -- follow, also those that fail, but for an Unregister of its ID: no other status can be set, no Register replaces
  -- it and no CleanupInactive removes it. Each row still holds a session under its own ID.
  pub run_calls-IsErrored :
      (rows : KvRows) (id : String) (calls : List RegistryCall)
      → IsSound backend rows
      → All (Spares id) calls
      → IsErrored rows id
      → IsSound backend (run_calls backend rows calls) × IsErrored (run_calls backend rows calls) id
  unfolding run_calls
  run_calls-IsErrored rows id [] sound spares h = (sound, h)
  run_calls-IsErrored rows id (call ∷ calls) sound spares h =
      run_calls-IsErrored (run_call backend rows call) id calls (IsSound-run_call rows call sound)
        spares.1 (IsErrored-run_call rows id call sound spares.0 h)
