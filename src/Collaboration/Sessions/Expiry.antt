-- ===== src/Collaboration/Sessions/Expiry.antt =====
-- internal/core/collaboration/session.go: what ExpireSessions and CleanupClosed leave.
use aps.Base.{
  ℕ, String, true, false, ◌≡◌, refl, inl, inr, Option, none, some, [], ◌∷◌, map, ok, keep, length,
  Distinct, has_key, lookup, insert, delete, lookup-insert, lookup-delete, if◌then◌else◌, arith,
  eq_iff, eq_refl, Bool-cases,
}
use aps.Collaboration.Sessions.{
  Session, Sessions, update_in, delete_in, all_sessions, is_valid_session, SessionService, is_due,
  is_closed_of, with_closed, expire_from, expire_sessions, cleanup_from, cleanup_closed,
}

-- The stored sessions have passed the validator and stand at their IDs.
abbrev pub AllStored : Sessions → Type 0
AllStored sessions =
    (id : String) (s : Session)
    → lookup id sessions ≡ some s
    → (is_valid_session s ≡ true) × (s.id ≡ id)

abbrev pub expired_at : String → ℕ → Option Session → Option Session → Option Session
expired_at workspace_id now none current = current
expired_at workspace_id now (some s) current =
    if is_due workspace_id now s then some (with_closed s) else current

abbrev pub cleaned_at : String → Option Session → Option Session → Option Session
cleaned_at workspace_id none current = current
cleaned_at workspace_id (some s) current = if is_closed_of workspace_id s then none else current

-- The sessions of a list are those of a store, at their IDs.
abbrev Covers : Sessions → Sessions → Type 0
Covers sessions rest =
    (id : String) (s : Session) → lookup id rest ≡ some s → lookup id sessions ≡ some s

Covers-rest :
    (sessions rest : Sessions) (entry : String × Session)
    → Distinct (entry ∷ rest)
    → Covers sessions (entry ∷ rest)
    → Covers sessions rest
unfolding lookup
Covers-rest sessions rest entry d h i s e = ground (arith, e, d.0, h i s, eq_iff entry.0 i)

Covers-insert :
    (sessions rest : Sessions) (id : String) (s : Session)
    → has_key id rest ≡ false
    → Covers sessions rest
    → Covers (insert id s sessions) rest
Covers-insert sessions rest id s d h i t e =
    ground (arith, e, d, h i t, lookup-insert id i s sessions, eq_iff id i)

Covers-delete :
    (sessions rest : Sessions) (id : String)
    → has_key id rest ≡ false
    → Covers sessions rest
    → Covers (delete id sessions) rest
Covers-delete sessions rest id d h i t e =
    ground (arith, e, d, h i t, lookup-delete id i sessions, eq_iff id i)

module _ {E : Type 0} (service : SessionService E) where
  open service use {update, remove}

  -- No subscriber vetoes: what the validator and the repository let through is written.
  abbrev pub Unvetoed : Type 0
  Unvetoed =
      ((sessions sessions' : Sessions) (s : Session)
        → is_valid_session s ≡ true
        → update_in sessions s ≡ ok sessions'
        → update sessions s ≡ ok sessions')
      × ((sessions sessions' : Sessions) (id : String)
          → delete_in sessions id ≡ ok sessions'
          → remove sessions id ≡ ok sessions')

  update_passes :
      (sessions : Sessions) (id : String) (s : Session)
      → Unvetoed
      → lookup id sessions ≡ some s
      → (is_valid_session s ≡ true) × (s.id ≡ id)
      → update sessions (with_closed s) ≡ ok (insert id (with_closed s) sessions)
  unfolding update_in is_valid_session
  update_passes sessions id s u e h =
      u.0 sessions (insert id (with_closed s) sessions) (with_closed s) (ground (arith, h.0))
        (ground (arith, e, h.1))

  expire_from_lem :
      (workspace_id : String) (now : ℕ) (sessions rest : Sessions)
      → Unvetoed
      → Distinct rest
      → AllStored rest
      → Covers sessions rest
      → let after = expire_from service workspace_id now sessions (all_sessions rest) in
        ((id : String)
          → lookup id after.0 ≡ expired_at workspace_id now (lookup id rest) (lookup id sessions))
        × (after.1 ≡ map (λ s. s.profile_id) (keep (is_due workspace_id now) (all_sessions rest)))
  unfolding expire_from lookup
  expire_from_lem workspace_id now sessions [] u d h c = (λ id. refl, refl)
  expire_from_lem workspace_id now sessions (entry ∷ rest) u d h c =
      let at_head : lookup entry.0 (entry ∷ rest) ≡ some entry.1 =
        ground (arith, eq_refl entry.0) in
      let stored : AllStored rest =
        λ i s e. h i s (Covers-rest (entry ∷ rest) rest entry d (λ j t k. k) i s e) in
      let covered = Covers-rest sessions rest entry d c in
      elim (Bool-cases (is_due workspace_id now entry.1)) [
        | inr stays ↦
            let later = expire_from_lem workspace_id now sessions rest u d.1 stored covered in
            (
              λ id. ground (arith, stays, later.0 id, d.0, eq_iff entry.0 id),
              ground (arith, stays, later.1),
            )
        | inl due ↦
            let closing = with_closed entry.1 in
            let sessions' = insert entry.0 closing sessions in
            let passes =
              update_passes sessions entry.0 entry.1 u (c entry.0 entry.1 at_head)
                (h entry.0 entry.1 at_head) in
            let later =
              expire_from_lem workspace_id now sessions' rest u d.1 stored
                (Covers-insert sessions rest entry.0 closing d.0 covered) in
            (
              λ id. ground (
                arith,
                due,
                passes,
                later.0 id,
                d.0,
                eq_iff entry.0 id,
                lookup-insert entry.0 id closing sessions,
              ),
              ground (arith, due, passes, later.1),
            )
      ]

  cleanup_from_lem :
      (workspace_id : String) (sessions rest : Sessions)
      → Unvetoed
      → Distinct rest
      → AllStored rest
      → Covers sessions rest
      → let after = cleanup_from service workspace_id sessions (all_sessions rest) in
        ((id : String)
          → lookup id after.0 ≡ cleaned_at workspace_id (lookup id rest) (lookup id sessions))
        × (after.1 ≡ length (keep (is_closed_of workspace_id) (all_sessions rest)))
  unfolding cleanup_from lookup
  cleanup_from_lem workspace_id sessions [] u d h c = (λ id. refl, refl)
  cleanup_from_lem workspace_id sessions (entry ∷ rest) u d h c =
      let at_head : lookup entry.0 (entry ∷ rest) ≡ some entry.1 =
        ground (arith, eq_refl entry.0) in
      let stored : AllStored rest =
        λ i s e. h i s (Covers-rest (entry ∷ rest) rest entry d (λ j t k. k) i s e) in
      let covered = Covers-rest sessions rest entry d c in
      elim (Bool-cases (is_closed_of workspace_id entry.1)) [
        | inr stays ↦
            let later = cleanup_from_lem workspace_id sessions rest u d.1 stored covered in
            (
              λ id. ground (arith, stays, later.0 id, d.0, eq_iff entry.0 id),
              ground (arith, stays, later.1),
            )
        | inl gone ↦
            let sessions' = delete entry.0 sessions in
            let passes : remove sessions entry.1.id ≡ ok sessions' =
              rw (h entry.0 entry.1 at_head).1 (
                u.1 sessions sessions' entry.0
                  (unfold delete_in in ground (arith, c entry.0 entry.1 at_head))) in
            let later =
              cleanup_from_lem workspace_id sessions' rest u d.1 stored
                (Covers-delete sessions rest entry.0 d.0 covered) in
            (
              λ id. ground (
                arith,
                gone,
                passes,
                later.0 id,
                d.0,
                eq_iff entry.0 id,
                lookup-delete entry.0 id sessions,
              ),
              ground (arith, gone, passes, later.1),
            )
      ]

  -- Without a veto, ExpireSessions closes exactly the active sessions of the workspace whose time is over, leaves all
  -- others as they are, and returns the profiles of those that it closed.
  pub expire_sessions_lem :
      (now : ℕ) (sessions : Sessions) (workspace_id : String)
      → Unvetoed
      → Distinct sessions
      → AllStored sessions
      → let after = expire_sessions service now sessions workspace_id in
        ((id : String)
          → lookup id after.0
            ≡ expired_at workspace_id now (lookup id sessions) (lookup id sessions))
        × (after.1
            ≡ map (λ s. s.profile_id) (keep (is_due workspace_id now) (all_sessions sessions)))
  unfolding expire_sessions
  expire_sessions_lem now sessions workspace_id u d h =
      expire_from_lem workspace_id now sessions sessions u d h (λ i s e. e)

  -- Without a veto, CleanupClosed removes exactly the closed sessions of the workspace, leaves all others as they are,
  -- and returns how many it removed.
  pub cleanup_closed_lem :
      (sessions : Sessions) (workspace_id : String)
      → Unvetoed
      → Distinct sessions
      → AllStored sessions
      → let after = cleanup_closed service sessions workspace_id in
        ((id : String)
          → lookup id after.0 ≡ cleaned_at workspace_id (lookup id sessions) (lookup id sessions))
        × (after.1 ≡ length (keep (is_closed_of workspace_id) (all_sessions sessions)))
  unfolding cleanup_closed
  cleanup_closed_lem sessions workspace_id u d h =
      cleanup_from_lem workspace_id sessions sessions u d h (λ i s e. e)
