-- ===== src/Collaboration/Sessions/Soundness.antt =====
-- internal/core/collaboration/session.go: sessions of which each agent has one that is active in a workspace at most,
-- and the writes that keep them so.
use aps.Base.{
  String, Bool, true, false, ◌≡◌, refl, sym, ◌∙◌, inl, inr, Option, none, some, [], ◌∷◌, any,
  lookup, insert, delete, lookup-insert, lookup-delete, ◌==◌, arith, eq_iff, eq_refl, Bool-cases,
}
use aps.Collaboration.Sessions.{
  is_active, Session, Sessions, all_sessions, is_active_of, has_active_session,
}

-- Each session stands at its ID, and two active sessions of one agent in one workspace are the same.
pub record IsSound (sessions : Sessions) : Type 0 where
  pub keyed : (id : String) (s : Session) → lookup id sessions ≡ some s → s.id ≡ id
  pub unique :
      (i j : String) (s t : Session)
      → lookup i sessions ≡ some s
      → lookup j sessions ≡ some t
      → is_active s.state ≡ true
      → is_active t.state ≡ true
      → s.workspace_id ≡ t.workspace_id
      → s.profile_id ≡ t.profile_id
      → i ≡ j

-- The active session at an ID, if there is one, was there before, for the same agent and workspace.
abbrev Follows : Option Session → Option Session → Type 0
Follows before none = Unit
Follows none (some s) = is_active s.state ≡ false
Follows (some t) (some s) =
    is_active s.state ≡ true
    → (is_active t.state ≡ true) × (t.workspace_id ≡ s.workspace_id) × (t.profile_id ≡ s.profile_id)

abbrev Shrinks : Sessions → Sessions → Type 0
Shrinks before after = (id : String) → Follows (lookup id before) (lookup id after)

Follows-same : (o : Option Session) → Follows o o
Follows-same none = tt
Follows-same (some s) = λ h. (h, refl, refl)

Follows-inactive :
    (o : Option Session) (s : Session) → is_active s.state ≡ false → Follows o (some s)
Follows-inactive none s e = e
Follows-inactive (some t) s e = λ h. absurd (ground (arith, e, h))

active_before :
    (o : Option Session) (s : Session)
    → Follows o (some s)
    → is_active s.state ≡ true
    → (t : Session) × (o ≡ some t)
      × (is_active t.state ≡ true)
      × (t.workspace_id ≡ s.workspace_id)
      × (t.profile_id ≡ s.profile_id)
active_before none s f h = absurd (ground (arith, f, h))
active_before (some t) s f h =
    let (was, workspace, profile) = f h in (t, refl, was, workspace, profile)

abbrev Keyed : Sessions → Type 0
Keyed sessions = (id : String) (s : Session) → lookup id sessions ≡ some s → s.id ≡ id

Keyed-insert : (sessions : Sessions) (s : Session) → Keyed sessions → Keyed (insert s.id s sessions)
Keyed-insert sessions s h id t e =
    ground (arith, e, h id t, lookup-insert s.id id s sessions, eq_iff s.id id)

Keyed-delete : (sessions : Sessions) (id : String) → Keyed sessions → Keyed (delete id sessions)
Keyed-delete sessions id h i t e = ground (arith, e, h i t, lookup-delete id i sessions)

IsSound-shrunk :
    (before after : Sessions) → IsSound before → Keyed after → Shrinks before after → IsSound after
IsSound-shrunk before after h k f = record {
  keyed = k;
  unique = λ i j s t at_i at_j s_active t_active same_workspace same_profile.
      let was_s = active_before (lookup i before) s (rw (sym at_i) (f i)) s_active in
      let was_t = active_before (lookup j before) t (rw (sym at_j) (f j)) t_active in
      h.unique i j was_s.0 was_t.0 was_s.1 was_t.1 was_s.2 was_t.2
        (was_s.3 ∙ same_workspace ∙ sym was_t.3) (was_s.4 ∙ same_profile ∙ sym was_t.4);
}

-- A session replaced by an inactive one.
pub IsSound-insert_inactive :
    (sessions : Sessions) (s : Session)
    → is_active s.state ≡ false
    → IsSound sessions
    → IsSound (insert s.id s sessions)
IsSound-insert_inactive sessions s e h =
    IsSound-shrunk sessions (insert s.id s sessions) h (Keyed-insert sessions s h.keyed) λ i.
      rw (lookup-insert s.id i s sessions) (elim (Bool-cases (s.id == i)) [
        | inl same ↦ simp same (Follows-inactive (lookup i sessions) s e)
        | inr other ↦ simp other (Follows-same (lookup i sessions))
      ])

-- A session replaced by one of the same agent and workspace, active only if it was.
pub IsSound-insert_same :
    (sessions : Sessions) (s t : Session)
    → lookup s.id sessions ≡ some t
    → Follows (some t) (some s)
    → IsSound sessions
    → IsSound (insert s.id s sessions)
IsSound-insert_same sessions s t found f h =
    IsSound-shrunk sessions (insert s.id s sessions) h (Keyed-insert sessions s h.keyed) λ i.
      rw (lookup-insert s.id i s sessions) (elim (Bool-cases (s.id == i)) [
        | inl same ↦ simp same (rw (sym ((eq_iff s.id i).0 same)) (rw found f))
        | inr other ↦ simp other (Follows-same (lookup i sessions))
      ])

pub IsSound-delete :
    (sessions : Sessions) (id : String) → IsSound sessions → IsSound (delete id sessions)
IsSound-delete sessions id h =
    IsSound-shrunk sessions (delete id sessions) h (Keyed-delete sessions id h.keyed) λ i.
      rw (lookup-delete id i sessions) (elim (Bool-cases (id == i)) [
        | inl same ↦ simp same tt
        | inr other ↦ simp other (Follows-same (lookup i sessions))
      ])

-- A test that no session passes fails at each look-up.
pub lookup-none_active :
    (p : Session → Bool) (sessions : Sessions) (id : String) (s : Session)
    → any p (all_sessions sessions) ≡ false
    → lookup id sessions ≡ some s
    → p s ≡ false
unfolding lookup
lookup-none_active p [] id s h e = absurd (ground (arith, e))
lookup-none_active p (entry ∷ sessions) id s h e =
    ground (arith, h, e, lookup-none_active p sessions id s)

pub IsSound-insert_new :
    (sessions : Sessions) (s : Session)
    → has_active_session sessions s.workspace_id s.profile_id ≡ false
    → IsSound sessions
    → IsSound (insert s.id s sessions)
unfolding has_active_session
IsSound-insert_new sessions s none_active h =
    let at = λ (i : String). lookup-insert s.id i s sessions in
    let other = λ (i : String) (t : Session).
      lookup-none_active (is_active_of s.workspace_id s.profile_id) sessions i t none_active in
    record {
      keyed = Keyed-insert sessions s h.keyed;
      unique = λ i j t u at_i at_j t_active u_active same_workspace same_profile.
          elim (Bool-cases (s.id == i)) [
            | inl i_new ↦ elim (Bool-cases (s.id == j)) [
              | inl j_new ↦ sym ((eq_iff s.id i).0 i_new) ∙ (eq_iff s.id j).0 j_new
              | inr j_old ↦ absurd (
                  ground (
                    arith,
                    i_new,
                    j_old,
                    at i,
                    at j,
                    at_i,
                    at_j,
                    other j u,
                    u_active,
                    same_workspace,
                    same_profile,
                    eq_refl s.workspace_id,
                    eq_refl s.profile_id,
                  ))
            ]
            | inr i_old ↦ elim (Bool-cases (s.id == j)) [
              | inl j_new ↦ absurd (
                  ground (
                    arith,
                    i_old,
                    j_new,
                    at i,
                    at j,
                    at_i,
                    at_j,
                    other i t,
                    t_active,
                    same_workspace,
                    same_profile,
                    eq_refl s.workspace_id,
                    eq_refl s.profile_id,
                  ))
              | inr j_old ↦
                  h.unique i j t u (ground (arith, i_old, at i, at_i))
                    (ground (arith, j_old, at j, at_j)) t_active u_active same_workspace
                    same_profile
            ]
          ];
    }
