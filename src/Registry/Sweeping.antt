-- ===== src/Registry/Sweeping.antt =====
-- internal/core/session/registry.go: what CleanupInactive removes.
use aps.Base.{
  ℕ, String, Bool, false, ◌&&◌, ◌≡◌, refl, sym, ap, ◌∙◌, inl, inr, Option, none, some, List, [],
  ◌∷◌, keep, any, any-IsIn, IsIn-any, Result, ok, err, Result-cases, Option-cases, Bool-cases,
  contains, ◌==◌, if◌then◌else◌, arith, eq_iff,
}
use aps.Registry.{
  SessionInfo, KvRows, Backend, RegistryError, SessionEvent, kv_delete_session, kv_list_sessions,
}
use aps.Registry.Calls.{is_expired, remove_expired, cleanup_listed, cleanup_inactive}
use aps.Registry.Rows.{
  stored, IsSound, stored-id, stored-kv_delete_session, IsSound-kv_delete_session,
}
use aps.Registry.Listing.{session_ids, IsListing, listed, kv_list_sessions-IsListing}

-- Whether the list has a session under the ID that has expired.
abbrev pub expires_in : ℕ → ℕ → List SessionInfo → String → Bool
expires_in now timeout sessions x = any (λ s. is_expired now timeout s && (s.id == x)) sessions

abbrev pub expired_stored : ℕ → ℕ → Option SessionInfo → Bool
expired_stored now timeout none = false
expired_stored now timeout (some s) = is_expired now timeout s

module _ {E : Type 0} (backend : Backend E) (now timeout : ℕ) where
  -- Whether there is an error or not, what has not expired is as it was.
  pub remove_expired_keeps :
      (rows : KvRows) (sessions : List SessionInfo) (x : String)
      → expires_in now timeout sessions x ≡ false
      → stored backend (remove_expired backend now timeout rows sessions).0 x
        ≡ stored backend rows x
  unfolding remove_expired
  remove_expired_keeps rows [] x h = refl
  remove_expired_keeps rows (s ∷ sessions) x h = elim (Bool-cases (is_expired now timeout s)) [
    | inl expired ↦ elim (Result-cases (kv_delete_session backend rows s.id)) [
      | inl (f, failed) ↦ simp (expired, failed) refl
      | inr (rows', ran) ↦
          simp (expired, ran)
            (remove_expired_keeps rows' sessions x (ground (arith, h, expired))
              ∙ stored-kv_delete_session backend rows rows' s.id ran x
              ∙ ground (arith, h, expired))
    ]
    | inr kept ↦ simp kept (remove_expired_keeps rows sessions x (ground (arith, h, kept)))
  ]

  pub IsSound-remove_expired :
      (rows : KvRows) (sessions : List SessionInfo)
      → IsSound backend rows
      → IsSound backend (remove_expired backend now timeout rows sessions).0
  unfolding remove_expired
  IsSound-remove_expired rows [] sound = sound
  IsSound-remove_expired rows (s ∷ sessions) sound = elim (Bool-cases (is_expired now timeout s)) [
    | inl expired ↦ elim (Result-cases (kv_delete_session backend rows s.id)) [
      | inl (f, failed) ↦ simp (expired, failed) sound
      | inr (rows', ran) ↦
          simp (expired, ran)
            (IsSound-remove_expired rows' sessions
              (IsSound-kv_delete_session backend rows rows' s.id ran sound))
    ]
    | inr kept ↦ simp kept (IsSound-remove_expired rows sessions sound)
  ]

  remove_expired_ok :
      (rows : KvRows) (sessions removed : List SessionInfo)
      → (remove_expired backend now timeout rows sessions).1 ≡ ok removed
      → (removed ≡ keep (is_expired now timeout) sessions)
        × ((x : String)
            → stored backend (remove_expired backend now timeout rows sessions).0 x
              ≡ (if expires_in now timeout sessions x then none else stored backend rows x))
  unfolding remove_expired
  remove_expired_ok rows [] removed e = (ground (arith, e), λ x. refl)
  remove_expired_ok rows (s ∷ sessions) removed e = elim (Bool-cases (is_expired now timeout s)) [
    | inl expired ↦ elim (Result-cases (kv_delete_session backend rows s.id)) [
      | inl (f, failed) ↦ absurd (ground (arith, e, expired, failed))
      | inr (rows', ran) ↦
          elim (Result-cases (remove_expired backend now timeout rows' sessions).1) [
            | inl (f, failed) ↦ absurd (ground (arith, e, expired, ran, failed))
            | inr (later, done) ↦
                let (same, left) = remove_expired_ok rows' sessions later done in
                (
                  ground (arith, e, expired, ran, done, same),
                  λ x.
                      simp (expired, ran)
                        (left x
                          ∙ ground (
                            arith,
                            expired,
                            stored-kv_delete_session backend rows rows' s.id ran x,
                          )),
                )
          ]
    ]
    | inr kept ↦
        let (same, left) = remove_expired_ok rows sessions removed (ground (arith, e, kept)) in
        (ground (arith, same, kept), λ x. simp kept (left x ∙ ground (arith, kept)))
  ]

  contains-keep :
      (sessions : List SessionInfo) (x : String)
      → contains (session_ids (keep (is_expired now timeout) sessions)) x
        ≡ expires_in now timeout sessions x
  contains-keep [] x = refl
  contains-keep (s ∷ sessions) x = ground (arith, contains-keep sessions x)

  -- A listed session expires exactly when the stored one does.
  pub expires_in-stored :
      (rows : KvRows) (sessions : List SessionInfo) (x : String)
      → IsSound backend rows
      → IsListing backend rows sessions
      → expires_in now timeout sessions x ≡ expired_stored now timeout (stored backend rows x)
  expires_in-stored rows sessions x sound h =
      let test : SessionInfo → Bool = λ s. is_expired now timeout s && (s.id == x) in
      elim (Bool-cases (any test sessions)) [
        | inl some_one ↦
            let (s, placed, passes) = any-IsIn test sessions some_one in
            let same : s.id ≡ x = ground (arith, passes, eq_iff s.id x) in
            let at : stored backend rows x ≡ some s =
              ap (stored backend rows) (sym same) ∙ h.real s placed in
            some_one ∙ ground (arith, passes, at)
        | inr no_one ↦ elim (Option-cases (stored backend rows x)) [
          | inl absent ↦ no_one ∙ ground (arith, absent)
          | inr (s, at) ↦ elim (Bool-cases (is_expired now timeout s)) [
            | inl expired ↦ absurd (
                ground (
                  arith,
                  no_one,
                  expired,
                  eq_iff s.id x,
                  stored-id backend rows x s sound at,
                  IsIn-any test s sessions (listed backend rows sessions x s h at),
                ))
            | inr kept ↦ no_one ∙ ground (arith, at, kept)
          ]
        ]
      ]

  -- In rows that each hold a session under its own ID, where CleanupInactive returns no error: its IDs are those of the
  -- stored sessions that are not errored and were last seen longer ago than the timeout, and these are gone. Each
  -- other session is as it was.
  pub cleanup_inactive_lem :
      (rows : KvRows) (ids : List String) (events : List SessionEvent) (x : String)
      → IsSound backend rows
      → (cleanup_inactive backend now timeout rows).1 ≡ ok (ids, events)
      → (contains ids x ≡ expired_stored now timeout (stored backend rows x))
        × (stored backend (cleanup_inactive backend now timeout rows).0 x ≡ (
            if expired_stored now timeout (stored backend rows x)
            then none
            else stored backend rows x))
  unfolding cleanup_inactive
  cleanup_inactive_lem rows ids events x sound e =
      elim (Result-cases (kv_list_sessions backend rows)) [
        | inl (f, failed) ↦ absurd (ground (arith, e, failed))
        | inr (sessions, ran) ↦
            elim (Result-cases (remove_expired backend now timeout rows sessions).1) [
              | inl (f, failed) ↦ absurd (ground (arith, e, ran, failed))
              | inr (removed, done) ↦
                  let (same, left) = remove_expired_ok rows sessions removed done in
                  let stands =
                    expires_in-stored rows sessions x sound
                      (kv_list_sessions-IsListing backend rows sessions sound ran) in
                  let is_ids : session_ids removed ≡ ids = ground (arith, e, ran, done) in
                  (
                    ap (λ l. contains l x) (sym is_ids)
                        ∙ ap (λ l. contains (session_ids l) x) same
                        ∙ contains-keep sessions x
                        ∙ stands,
                    ap (λ r. stored backend (cleanup_listed backend now timeout rows r).0 x) ran
                        ∙ left x
                        ∙ ap (λ b. if b then none else stored backend rows x) stands,
                  )
            ]
      ]

  -- Whatever fails, a session that has not expired is as it was.
  pub cleanup_inactive_keeps :
      (rows : KvRows) (x : String)
      → IsSound backend rows
      → expired_stored now timeout (stored backend rows x) ≡ false
      → stored backend (cleanup_inactive backend now timeout rows).0 x ≡ stored backend rows x
  unfolding cleanup_inactive
  cleanup_inactive_keeps rows x sound kept = elim (Result-cases (kv_list_sessions backend rows)) [
    | inl (f, failed) ↦
        ap (λ r. stored backend (cleanup_listed backend now timeout rows r).0 x) failed
    | inr (sessions, ran) ↦
        ap (λ r. stored backend (cleanup_listed backend now timeout rows r).0 x) ran
        ∙ remove_expired_keeps rows sessions x (
            expires_in-stored rows sessions x sound
              (kv_list_sessions-IsListing backend rows sessions sound ran)
            ∙ kept)
  ]

  pub IsSound-cleanup_inactive :
      (rows : KvRows)
      → IsSound backend rows
      → IsSound backend (cleanup_inactive backend now timeout rows).0
  unfolding cleanup_inactive
  IsSound-cleanup_inactive rows sound = IsSound-cleanup_listed (kv_list_sessions backend rows)
    where
      IsSound-cleanup_listed :
          (listing : Result (RegistryError E) (List SessionInfo))
          → IsSound backend (cleanup_listed backend now timeout rows listing).0
      IsSound-cleanup_listed (err e) = sound
      IsSound-cleanup_listed (ok sessions) = IsSound-remove_expired rows sessions sound
