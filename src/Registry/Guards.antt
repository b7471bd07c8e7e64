-- ===== src/Registry/Guards.antt =====
-- internal/core/session/registry.go: what holds after a call, when it holds before and after what the call writes.
use aps.Base.{
  ℕ, String, true, ◌≡◌, refl, sym, inl, inr, none, some, [], ◌∷◌, Result, ok, err, Result-cases,
  Bool-cases, if◌then◌else◌,
}
use aps.Registry.{
  SessionInfo, KvRows, Backend, RegistryError, session_started, invalid_transition, kv_get_session,
  kv_put_session, kv_delete_session, registered, rewritten,
}
use aps.Registry.Calls.{
  Written, rows_after, persist, register, unregister, get_info, status_events, check_transition,
  update_session_status,
}
use aps.Registry.Rows.{stored, kv_get_info-stored}
use aps.Registry.Effects.{persist_lem, get_info-stored}

module _ {E : Type 0} (backend : Backend E) where
  -- What the calls that change a session have in common: nothing is written where it is not read.
  update_lem :
      (P : KvRows → Type 0) (rows : KvRows) (id : String) (next : SessionInfo → Written E)
      → P rows
      → ((s : SessionInfo) → stored backend rows id ≡ some s → P (rows_after rows (next s)))
      → P (rows_after rows (elim (get_info backend rows id) [ err e ↦ err e | ok s ↦ next s ]))
  update_lem P rows id next before after =
      by_result (get_info backend rows id) (λ s e. after s (get_info-stored backend rows id s e))
    where
      by_result :
          (r : Result (RegistryError E) SessionInfo)
          → ((s : SessionInfo) → r ≡ ok s → P (rows_after rows (next s)))
          → P (rows_after rows (elim r [ err e ↦ err e | ok s ↦ next s ]))
      by_result (err e) h = before
      by_result (ok s) h = h s refl

  pub register_lem :
      (P : KvRows → Type 0) (now : ℕ) (note : String) (rows : KvRows) (s : SessionInfo)
      → P rows
      → (stored backend rows s.id ≡ none
          → (rows' : KvRows) → kv_put_session backend rows (registered now s) ≡ ok rows'
          → P rows')
      → P (rows_after rows (register backend now note rows s))
  unfolding register
  register_lem P now note rows s before put =
      elim (Result-cases (kv_get_session backend rows s.id)) [
        | inl (f, failed) ↦ simp (failed, register) before
        | inr (some t, found) ↦ simp (found, register) before
        | inr (none, absent) ↦
            simp (absent, register)
              (persist_lem backend P rows (registered now s)
                (session_started s.id s.profile_id s.command s.pid s.tier note ∷ []) before
                (put (sym (kv_get_info-stored backend rows s.id none absent))))
      ]

  pub unregister_lem :
      (P : KvRows → Type 0) (note : String) (rows : KvRows) (id : String)
      → P rows
      → ((rows' : KvRows) → kv_delete_session backend rows id ≡ ok rows' → P rows')
      → P (rows_after rows (unregister backend note rows id))
  unfolding unregister
  unregister_lem P note rows id before removed =
      elim (Result-cases (kv_get_session backend rows id)) [
        | inl (f, failed) ↦ simp (failed, unregister) before
        | inr (prev, found) ↦ elim (Result-cases (kv_delete_session backend rows id)) [
          | inl (f, failed) ↦ simp (found, failed, unregister) before
          | inr (rows', ran) ↦ simp (found, ran, unregister) (removed rows' ran)
        ]
      ]

  pub status_lem :
      (P : KvRows → Type 0) (now : ℕ) (note : String) (rows : KvRows) (id status : String)
      → P rows
      → ((s : SessionInfo)
          → stored backend rows id ≡ some s
          → check_transition backend s.status status ≡ true
          → (rows' : KvRows)
          → kv_put_session backend rows (rewritten now status s.environment s) ≡ ok rows'
          → P rows')
      → P (rows_after rows (update_session_status backend now note rows id status))
  unfolding update_session_status
  status_lem P now note rows id status before put =
      update_lem P rows id
        (λ s.
          if check_transition backend s.status status
          then persist backend rows (rewritten now status s.environment s)
              (status_events note id status s)
          else err invalid_transition)
        before
        λ s at. elim (Bool-cases (check_transition backend s.status status)) [
          | inl passes ↦ simp passes (
              persist_lem backend P rows (rewritten now status s.environment s)
                (status_events note id status s) before (put s at passes))
          | inr refused ↦ simp refused before
        ]

  -- UpdateHeartbeat and UpdateSessionMetadata
  pub refresh_lem :
      (P : KvRows → Type 0) (rows : KvRows) (id : String) (next : SessionInfo → SessionInfo)
      → P rows
      → ((s : SessionInfo)
          → stored backend rows id ≡ some s
          → (rows' : KvRows) → kv_put_session backend rows (next s) ≡ ok rows'
          → P rows')
      → P (
          rows_after rows (elim (get_info backend rows id) [
            | err e ↦ err e
            | ok s ↦ persist backend rows (next s) []
          ]))
  refresh_lem P rows id next before put =
      update_lem P rows id (λ s. persist backend rows (next s) []) before
        (λ s at. persist_lem backend P rows (next s) [] before (put s at))
