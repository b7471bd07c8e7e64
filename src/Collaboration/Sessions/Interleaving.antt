-- ===== src/Collaboration/Sessions/Interleaving.antt =====
-- internal/core/collaboration/session.go: two calls of CreateSession that interleave.
use aps.Base.{
  any, ℕ, String, true, ◌≡◌, ◌≢◌, ap, ◌∙◌, inl, inr, some, Result, ok, err, Result-cases,
  Bool-cases, lookup, lookup-insert, insert, if◌then◌else◌, arith, eq_iff, eq_refl,
}
use aps.Collaboration.Sessions.{
  Session, Sessions, all_sessions, is_active_of, has_active_session, SessionService, SessionError,
  duplicate_active, new_session, admit_session, create_session,
}
use aps.Collaboration.Sessions.Soundness.{lookup-none_active}
use aps.Collaboration.Sessions.Uniqueness.{created}

module _ {E : Type 0} (service : SessionService E) where
  open service use {create}

  -- CreateSession with another call between its check, which reads `checked`, and its write, which goes to `written`.
  abbrev pub create_split :
      ℕ
      → String
      → Sessions
      → Sessions
      → String
      → String
      → ℕ
      → Result (SessionError E) (Session × Sessions)
  create_split now id checked written workspace_id profile_id timeout =
      if has_active_session checked workspace_id profile_id
      then err duplicate_active
      else admit_session service written (new_session now id workspace_id profile_id timeout)

  -- What a session that was admitted is, and what it leaves.
  admitted :
      (written after : Sessions) (s got : Session)
      → admit_session service written s ≡ ok (got, after)
      → (got ≡ s) × (after ≡ insert s.id s written)
  unfolding admit_session
  admitted written after s got e = elim (Result-cases (create written s)) [
    | inl (f, failed) ↦ absurd (ground (arith, e, failed))
    | inr (sessions, done) ↦
        let stored = created service written sessions s done in
        let there : lookup s.id sessions ≡ some s =
          ap (lookup s.id) stored
          ∙ ground (arith, lookup-insert s.id s.id s written, eq_refl s.id) in
        (ground (arith, e, done, there), ground (arith, e, done, there, stored))
  ]

  split_admitted :
      (now : ℕ) (id : String) (checked written after : Sessions) (workspace_id profile_id : String)
      (timeout : ℕ) (s : Session)
      → create_split now id checked written workspace_id profile_id timeout ≡ ok (s, after)
      → let new = new_session now id workspace_id profile_id timeout in
        (s ≡ new) × (after ≡ insert id new written)
  split_admitted now id checked written after workspace_id profile_id timeout s e =
      elim (Bool-cases (has_active_session checked workspace_id profile_id)) [
        | inl busy ↦ absurd (ground (arith, e, busy))
        | inr idle ↦
            admitted written after (new_session now id workspace_id profile_id timeout) s
              (ground (arith, e, idle))
      ]

  -- With an active session under some ID, the agent is not given another.
  refused :
      (now : ℕ) (id other : String) (sessions : Sessions) (workspace_id profile_id : String)
      (timeout : ℕ) (s : Session)
      → lookup other sessions ≡ some s
      → is_active_of workspace_id profile_id s ≡ true
      → create_session service now id sessions workspace_id profile_id timeout
        ≡ err duplicate_active
  unfolding create_session has_active_session
  refused now id other sessions workspace_id profile_id timeout s found active =
      elim (Bool-cases (any (is_active_of workspace_id profile_id) (all_sessions sessions))) [
        | inl busy ↦ ground (arith, busy)
        | inr idle ↦ absurd (
            ground (
              arith,
              active,
              lookup-none_active (is_active_of workspace_id profile_id) sessions other s idle found,
            ))
      ]

  -- Two calls of CreateSession for one agent and workspace, of which the second makes its check before the first has
  -- written: if both succeed, under different IDs, the agent has two active sessions. After the first call alone,
  -- the second is refused.
  pub create_session_race :
      (now later : ℕ) (i j : String) (sessions first second : Sessions)
      (workspace_id profile_id : String) (timeout : ℕ) (s t : Session)
      → i ≢ j
      → create_session service now i sessions workspace_id profile_id timeout ≡ ok (s, first)
      → create_split later j sessions first workspace_id profile_id timeout ≡ ok (t, second)
      → (lookup i second ≡ some s)
        × (lookup j second ≡ some t)
        × (is_active_of workspace_id profile_id s ≡ true)
        × (is_active_of workspace_id profile_id t ≡ true)
        × (create_session service later j first workspace_id profile_id timeout
            ≡ err duplicate_active)
  unfolding create_session
  create_session_race now later i j sessions first second workspace_id profile_id timeout s t
        different e f =
      let (made, stored) =
        split_admitted now i sessions sessions first workspace_id profile_id timeout s e in
      let (made_too, stored_too) =
        split_admitted later j sessions first second workspace_id profile_id timeout t f in
      let new = new_session now i workspace_id profile_id timeout in
      let newer = new_session later j workspace_id profile_id timeout in
      let at_first : lookup i first ≡ some s =
        ap (lookup i) stored ∙ ground (arith, lookup-insert i i new sessions, eq_refl i, made) in
      let active : is_active_of workspace_id profile_id s ≡ true =
        ground (arith, made, eq_refl workspace_id, eq_refl profile_id) in
      (
        ap (lookup i) stored_too
            ∙ ground (arith, lookup-insert j i newer first, at_first, different, eq_iff j i),
        ap (lookup j) stored_too
            ∙ ground (arith, lookup-insert j j newer first, eq_refl j, made_too),
        active,
        ground (arith, made_too, eq_refl workspace_id, eq_refl profile_id),
        refused later j i first workspace_id profile_id timeout s at_first active,
      )
