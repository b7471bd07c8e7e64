-- ===== src/Registry/Effects.antt =====
-- internal/core/session/registry.go: what the calls write that change one row.
use aps.Base.{
  ℕ, String, ◌≡◌, refl, sym, subst, inl, inr, none, some, List, [], ◌∷◌, Result, ok, err,
  Result-cases, ◌==◌, if◌then◌else◌, arith, eq_refl,
}
use aps.Registry.{
  SessionInfo, KvRows, Backend, RegistryError, SessionEvent, session_started, kv_get_session,
  kv_put_session, registered,
}
use aps.Registry.Calls.{rows_after, with_events, persist, register, get_info}
use aps.Registry.Rows.{stored, kv_get_info-stored, stored-kv_put_session}

module _ {E : Type 0} (backend : Backend E) where
  -- The rows after a call that writes a session under its ID and nothing else.
  abbrev pub Writes : KvRows → SessionInfo → KvRows → Type 0
  Writes rows s rows' =
      (x : String) → stored backend rows' x ≡ (if s.id == x then some s else stored backend rows x)

  pub persist-Writes :
      (rows rows' : KvRows) (s : SessionInfo) (events told : List SessionEvent)
      → persist backend rows s events ≡ ok (rows', told)
      → Writes rows s rows' × (told ≡ events)
  persist-Writes rows rows' s events told e = elim (Result-cases (kv_put_session backend rows s)) [
    | inl (f, failed) ↦ absurd (ground (arith, e, failed))
    | inr (r, ran) ↦
        let same : r ≡ rows' = ground (arith, e, ran) in
        (
          subst (Writes rows s) same (stored-kv_put_session backend rows r s ran),
          ground (arith, e, ran),
        )
  ]

  -- What holds of the rows before a call and of those it has written, holds after it.
  pub persist_lem :
      (P : KvRows → Type 0) (rows : KvRows) (s : SessionInfo) (events : List SessionEvent)
      → P rows
      → ((rows' : KvRows) → kv_put_session backend rows s ≡ ok rows' → P rows')
      → P (rows_after rows (persist backend rows s events))
  persist_lem P rows s events before put = by_result (kv_put_session backend rows s) put
    where
      by_result :
          (r : Result (RegistryError E) KvRows)
          → ((rows' : KvRows) → r ≡ ok rows' → P rows')
          → P (rows_after rows (with_events events r))
      by_result (err e) h = before
      by_result (ok rows') h = h rows' refl

  pub get_info-stored :
      (rows : KvRows) (id : String) (s : SessionInfo)
      → get_info backend rows id ≡ ok s
      → stored backend rows id ≡ some s
  unfolding get_info
  get_info-stored rows id s e = elim (Result-cases (kv_get_session backend rows id)) [
    | inl (f, failed) ↦ absurd (ground (arith, e, failed))
    | inr (none, got) ↦ absurd (ground (arith, e, got))
    | inr (some t, got) ↦ ground (arith, e, got, kv_get_info-stored backend rows id (some t) got)
  ]

  -- Register and then Get: a session that Register accepts was not there, and what Get reads afterwards under its ID is
  -- the session with the time of the call. Each other ID has what it had, and one event tells of the session.
  pub get_info-register :
      (now : ℕ) (note : String) (rows rows' : KvRows) (s t : SessionInfo)
      (events : List SessionEvent) (x : String)
      → register backend now note rows s ≡ ok (rows', events)
      → get_info backend rows' s.id ≡ ok t
      → (stored backend rows s.id ≡ none)
        × (t ≡ registered now s)
        × (stored backend rows' x
            ≡ (if s.id == x then some (registered now s) else stored backend rows x))
        × (events ≡ session_started s.id s.profile_id s.command s.pid s.tier note ∷ [])
  unfolding register
  get_info-register now note rows rows' s t events x e got =
      elim (Result-cases (kv_get_session backend rows s.id)) [
        | inl (f, failed) ↦ absurd (ground (arith, e, failed))
        | inr (some other, found) ↦ absurd (ground (arith, e, found))
        | inr (none, absent) ↦
            let (written, told) =
              persist-Writes rows rows' (registered now s)
                (session_started s.id s.profile_id s.command s.pid s.tier note ∷ []) events
                (ground (arith, e, absent)) in
            (
              sym (kv_get_info-stored backend rows s.id none absent),
              ground (arith, written s.id, eq_refl s.id, get_info-stored rows' s.id t got),
              written x,
              told,
            )
      ]
