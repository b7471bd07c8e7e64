-- ===== src/Collaboration/Sessions/Uniqueness.antt =====
-- internal/core/collaboration/session.go: an agent has one active session in a workspace at most, for calls that do
-- not interleave.
use aps.Base.{
  ℕ, String, ◌≡◌, refl, ap, ◌∙◌, inl, inr, List, [], ◌∷◌, Result, Result-cases, ok, err, lookup,
  insert, delete, arith, Bool-cases, Option-cases,
}
use aps.Collaboration.Sessions.{
  is_active, Session, Sessions, create_in, update_in, delete_in, all_sessions, has_active_session,
  SessionService, new_session, is_due, is_closed_of, with_closed, seen, admit_session,
  create_session, update_session, delete_session, session_heartbeat, close_session, expire_from,
  expire_sessions, cleanup_from, cleanup_closed,
}
use aps.Collaboration.Sessions.Soundness.{
  IsSound, IsSound-insert_inactive, IsSound-insert_same, IsSound-delete, IsSound-insert_new,
}

-- The sessions after a call: those before it where it fails.
abbrev pub settled : {X : Type 0} → Sessions → Result X Sessions → Sessions
settled sessions (err e) = sessions
settled sessions (ok sessions') = sessions'

abbrev pub settled_with : {X : Type 0} → Sessions → Result X (Session × Sessions) → Sessions
settled_with sessions (err e) = sessions
settled_with sessions (ok made) = made.1

module _ {E : Type 0} (service : SessionService E) where
  open service use {create, update, remove, create_ran, update_ran, remove_ran}

  pub updated :
      (sessions sessions' : Sessions) (s : Session)
      → update sessions s ≡ ok sessions'
      → sessions' ≡ insert s.id s sessions
  unfolding update_in
  updated sessions sessions' s e = ground (arith, (update_ran sessions sessions' s e).1)

  pub removed :
      (sessions sessions' : Sessions) (id : String)
      → remove sessions id ≡ ok sessions'
      → sessions' ≡ delete id sessions
  unfolding delete_in
  removed sessions sessions' id e = ground (arith, remove_ran sessions sessions' id e)

  pub created :
      (sessions sessions' : Sessions) (s : Session)
      → create sessions s ≡ ok sessions'
      → sessions' ≡ insert s.id s sessions
  unfolding create_in
  created sessions sessions' s e = ground (arith, (create_ran sessions sessions' s e).1)

  IsSound-expire_from :
      (workspace_id : String) (now : ℕ) (sessions : Sessions) (rest : List Session)
      → IsSound sessions
      → IsSound (expire_from service workspace_id now sessions rest).0
  unfolding expire_from
  IsSound-expire_from workspace_id now sessions [] h = h
  IsSound-expire_from workspace_id now sessions (s ∷ rest) h =
      let kept = IsSound-expire_from workspace_id now sessions rest h in
      elim (Bool-cases (is_due workspace_id now s)) [
        | inr stays ↦ simp stays kept
        | inl due ↦ elim (Result-cases (update sessions (with_closed s))) [
          | inl (e, failed) ↦ simp (due, failed) kept
          | inr (sessions', done) ↦
              simp (due, done)
                (IsSound-expire_from workspace_id now sessions' rest (
                  rw (updated sessions sessions' (with_closed s) done)
                    (IsSound-insert_inactive sessions (with_closed s) refl h)))
        ]
      ]

  IsSound-cleanup_from :
      (workspace_id : String) (sessions : Sessions) (rest : List Session)
      → IsSound sessions
      → IsSound (cleanup_from service workspace_id sessions rest).0
  unfolding cleanup_from
  IsSound-cleanup_from workspace_id sessions [] h = h
  IsSound-cleanup_from workspace_id sessions (s ∷ rest) h =
      let kept = IsSound-cleanup_from workspace_id sessions rest h in
      elim (Bool-cases (is_closed_of workspace_id s)) [
        | inr stays ↦ simp stays kept
        | inl gone ↦ elim (Result-cases (remove sessions s.id)) [
          | inl (e, failed) ↦ simp (gone, failed) kept
          | inr (sessions', done) ↦
              simp (gone, done)
                (IsSound-cleanup_from workspace_id sessions' rest
                  (rw (removed sessions sessions' s.id done) (IsSound-delete sessions s.id h)))
        ]
      ]

  -- The calls of the manager but UpdateSession, which writes whatever it is given.
  pub data SessionCall : Type 0 where
    create_call : (now : ℕ) (id workspace_id profile_id : String) (timeout : ℕ) → SessionCall
    heartbeat_call : (now : ℕ) (id : String) (timeout : ℕ) → SessionCall
    close_call delete_call : (id : String) → SessionCall
    expire_call : (now : ℕ) (workspace_id : String) → SessionCall
    cleanup_call : (workspace_id : String) → SessionCall

  abbrev pub after_session_call : Sessions → SessionCall → Sessions
  after_session_call sessions (create_call now id workspace_id profile_id timeout) =
      settled_with sessions (create_session service now id sessions workspace_id profile_id timeout)
  after_session_call sessions (heartbeat_call now id timeout) =
      settled sessions (session_heartbeat service now sessions id timeout)
  after_session_call sessions (close_call id) = settled sessions (close_session service sessions id)
  after_session_call sessions (delete_call id) =
      settled sessions (delete_session service sessions id)
  after_session_call sessions (expire_call now workspace_id) =
      (expire_sessions service now sessions workspace_id).0
  after_session_call sessions (cleanup_call workspace_id) =
      (cleanup_closed service sessions workspace_id).0

  abbrev pub after_session_calls : Sessions → List SessionCall → Sessions
  after_session_calls sessions [] = sessions
  after_session_calls sessions (c ∷ calls) =
      after_session_calls (after_session_call sessions c) calls

  IsSound-update_session :
      (sessions : Sessions) (s : Session)
      → ((sessions' : Sessions) → sessions' ≡ insert s.id s sessions → IsSound sessions')
      → IsSound sessions
      → IsSound (settled sessions (update_session service sessions s))
  unfolding update_session
  IsSound-update_session sessions s f h = elim (Result-cases (update sessions s)) [
    | inl (e, failed) ↦
        let same : settled sessions (update_session service sessions s) ≡ sessions =
          ground (arith, failed) in
        rw same h
    | inr (sessions', done) ↦
        let same : settled sessions (update_session service sessions s) ≡ sessions' =
          ground (arith, done) in
        rw same (f sessions' (updated sessions sessions' s done))
  ]

  IsSound-after_session_call :
      (sessions : Sessions) (c : SessionCall)
      → IsSound sessions
      → IsSound (after_session_call sessions c)
  unfolding create_session admit_session session_heartbeat close_session delete_session
      expire_sessions cleanup_closed
  IsSound-after_session_call sessions (create_call now id workspace_id profile_id timeout) h =
      let s = new_session now id workspace_id profile_id timeout in
      elim (Bool-cases (has_active_session sessions workspace_id profile_id)) [
        | inl duplicate ↦ simp duplicate h
        | inr fresh ↦ elim (Result-cases (create sessions s)) [
          | inl (e, failed) ↦
              let same : settled_with sessions (admit_session service sessions s) ≡ sessions =
                ground (arith, failed) in
              simp fresh (rw same h)
          | inr (sessions', done) ↦
              let sound : IsSound sessions' =
                rw (created sessions sessions' s done) (IsSound-insert_new sessions s fresh h) in
              elim (Option-cases (lookup id sessions')) [
                | inl lost ↦
                    let same : settled_with sessions (admit_session service sessions s) ≡ sessions =
                      ground (arith, done, lost) in
                    simp fresh (rw same h)
                | inr (got, found) ↦
                    let same : settled_with sessions (admit_session service sessions s)
                        ≡ sessions' =
                      ground (arith, done, found) in
                    simp fresh (rw same sound)
              ]
        ]
      ]
  IsSound-after_session_call sessions (heartbeat_call now id timeout) h =
      let after = settled sessions (session_heartbeat service now sessions id timeout) in
      elim (Option-cases (lookup id sessions)) [
        | inl unknown ↦ let same : after ≡ sessions = ground (arith, unknown) in rw same h
        | inr (s, found) ↦ elim (Bool-cases (is_active s.state)) [
          | inr idle ↦ let same : after ≡ sessions = ground (arith, found, idle) in rw same h
          | inl live ↦
              let same : after
                  ≡ settled sessions (update_session service sessions (seen now timeout s)) =
                ground (arith, found, live) in
              rw same (
                IsSound-update_session sessions (seen now timeout s)
                  (λ sessions' e. rw e (
                    IsSound-insert_same sessions (seen now timeout s) s
                      (ap (λ k. lookup k sessions) (h.keyed id s found) ∙ found)
                      (λ k. (k, refl, refl)) h))
                  h)
        ]
      ]
  IsSound-after_session_call sessions (close_call id) h =
      let after = settled sessions (close_session service sessions id) in
      elim (Option-cases (lookup id sessions)) [
        | inl unknown ↦ let same : after ≡ sessions = ground (arith, unknown) in rw same h
        | inr (s, found) ↦
            let same : after ≡ settled sessions (update_session service sessions (with_closed s)) =
              ground (arith, found) in
            rw same (
              IsSound-update_session sessions (with_closed s)
                (λ sessions' e. rw e (IsSound-insert_inactive sessions (with_closed s) refl h)) h)
      ]
  IsSound-after_session_call sessions (delete_call id) h =
      let after = settled sessions (delete_session service sessions id) in
      elim (Result-cases (remove sessions id)) [
        | inl (e, failed) ↦ let same : after ≡ sessions = ground (arith, failed) in rw same h
        | inr (sessions', done) ↦
            let same : after ≡ sessions' = ground (arith, done) in
            rw same (rw (removed sessions sessions' id done) (IsSound-delete sessions id h))
      ]
  IsSound-after_session_call sessions (expire_call now workspace_id) h =
      IsSound-expire_from workspace_id now sessions (all_sessions sessions) h
  IsSound-after_session_call sessions (cleanup_call workspace_id) h =
      IsSound-cleanup_from workspace_id sessions (all_sessions sessions) h

  IsSound-after_session_calls :
      (sessions : Sessions) (calls : List SessionCall)
      → IsSound sessions
      → IsSound (after_session_calls sessions calls)
  IsSound-after_session_calls sessions [] h = h
  IsSound-after_session_calls sessions (c ∷ calls) h =
      IsSound-after_session_calls (after_session_call sessions c) calls
        (IsSound-after_session_call sessions c h)

  -- After any calls on a new manager, failing ones included and UpdateSession left out, where no call starts before
  -- the last has ended: each session stands at its ID, and an agent has one active session in a workspace at most.
  pub new_manager-IsSound : (calls : List SessionCall) → IsSound (after_session_calls [] calls)
  unfolding lookup
  new_manager-IsSound calls = IsSound-after_session_calls [] calls (record {
    keyed = λ id s e. absurd (ground (arith, e));
    unique = λ i j s t at_i at_j k l m n. absurd (ground (arith, at_i));
  })
