-- ===== src/Collaboration/Sessions/Tests.antt =====
-- internal/core/collaboration/session.go: a service that lets everything valid through, three sessions, and the
-- theorems at them.
use aps.Base.{
  String, true, false≢true, ◌≡◌, refl, some, List, [], ◌∷◌, map, Result, ok, err, keep, length,
  Distinct, lookup, insert, if◌then◌else◌, arith, eq_iff,
}
use aps.Collaboration.Context.{RepositoryError}
use aps.Collaboration.Sessions.{
  closed, Session, Sessions, create_in, update_in, delete_in, all_sessions, is_valid_session,
  is_active_of, has_active_session, SessionService, duplicate_active, not_active, new_session,
  is_due, is_closed_of, admit_session, create_session, session_heartbeat, expire_from,
  expire_sessions, cleanup_closed,
}
use aps.Collaboration.Sessions.Soundness.{IsSound}
use aps.Collaboration.Sessions.Uniqueness.{
  SessionCall, create_call, heartbeat_call, close_call, expire_call, cleanup_call,
  after_session_calls, new_manager-IsSound,
}
use aps.Collaboration.Sessions.Expiry.{
  AllStored, expired_at, cleaned_at, Unvetoed, expire_sessions_lem, cleanup_closed_lem,
}
use aps.Collaboration.Sessions.Interleaving.{create_session_race}

data PlainError : Type 0 where
  invalid : PlainError
  from_repository : RepositoryError → PlainError

lift : Result RepositoryError Sessions → Result PlainError Sessions
lift (ok sessions) = ok sessions
lift (err e) = err (from_repository e)

lift_ok :
    (r : Result RepositoryError Sessions) (sessions : Sessions)
    → lift r ≡ ok sessions
    → r ≡ ok sessions
unfolding lift
lift_ok (ok a) sessions h = ground (arith, h)
lift_ok (err e) sessions h = absurd (ground (arith, h))

plain_create : Sessions → Session → Result PlainError Sessions
plain_create sessions s = if is_valid_session s then lift (create_in sessions s) else err invalid

plain_update : Sessions → Session → Result PlainError Sessions
plain_update sessions s = if is_valid_session s then lift (update_in sessions s) else err invalid

plain_remove : Sessions → String → Result PlainError Sessions
plain_remove sessions id = lift (delete_in sessions id)

plain_create_ran :
    (sessions sessions' : Sessions) (s : Session)
    → plain_create sessions s ≡ ok sessions'
    → (is_valid_session s ≡ true) × (create_in sessions s ≡ ok sessions')
unfolding plain_create
plain_create_ran sessions sessions' s h =
    ground (arith, h, lift_ok (create_in sessions s) sessions')

plain_update_ran :
    (sessions sessions' : Sessions) (s : Session)
    → plain_update sessions s ≡ ok sessions'
    → (is_valid_session s ≡ true) × (update_in sessions s ≡ ok sessions')
unfolding plain_update
plain_update_ran sessions sessions' s h =
    ground (arith, h, lift_ok (update_in sessions s) sessions')

plain_remove_ran :
    (sessions sessions' : Sessions) (id : String)
    → plain_remove sessions id ≡ ok sessions'
    → delete_in sessions id ≡ ok sessions'
unfolding plain_remove
plain_remove_ran sessions sessions' id h = lift_ok (delete_in sessions id) sessions' h

abbrev plain_sessions : SessionService PlainError
plain_sessions = record {
  create = plain_create;
  update = plain_update;
  remove = plain_remove;
  create_ran = plain_create_ran;
  update_ran = plain_update_ran;
  remove_ran = plain_remove_ran;
}

plain-Unvetoed : Unvetoed plain_sessions
unfolding plain_update plain_remove lift
plain-Unvetoed = (
  λ sessions sessions' s valid e. ground (arith, valid, e),
  λ sessions sessions' id e. ground (arith, e),
)

abbrev ann : Session
ann = new_session 5 "s1" "team" "ann" 10

abbrev bob : Session
bob = new_session 9 "s2" "team" "bob" 20

abbrev cid : Session
cid = record (new_session 1 "s3" "team" "cid" 3) { state = closed }

abbrev three : Sessions
three = ("s1", ann) ∷ ("s2", bob) ∷ ("s3", cid) ∷ []

three-Distinct : Distinct three
unfolding lookup
three-Distinct = (refl, (refl, (refl, tt)))

AllStored-cons :
    (s : Session) (rest : Sessions)
    → is_valid_session s ≡ true
    → AllStored rest
    → AllStored ((s.id, s) ∷ rest)
unfolding lookup
AllStored-cons s rest valid h id t e = ground (arith, e, valid, h id t, eq_iff s.id id)

three-AllStored : AllStored three
unfolding lookup is_valid_session
three-AllStored = AllStored-cons ann (("s2", bob) ∷ ("s3", cid) ∷ []) refl (
    AllStored-cons bob (("s3", cid) ∷ []) refl
      (AllStored-cons cid [] refl (λ id s e. absurd (ground (arith, e)))))

expired_profiles : (expire_sessions plain_sessions 20 three "team").1 ≡ "ann" ∷ []
unfolding expire_sessions expire_from plain_update lift update_in is_valid_session lookup insert
expired_profiles = refl

second_refused : create_session plain_sessions 30 "s9" three "team" "ann" 10 ≡ err duplicate_active
unfolding create_session has_active_session
second_refused = refl

closed_heartbeat : session_heartbeat plain_sessions 30 three "s3" 10 ≡ err not_active
unfolding session_heartbeat lookup
closed_heartbeat = refl

abbrev day : List (SessionCall plain_sessions)
day =
    create_call 5 "s1" "team" "ann" 10
    ∷ create_call 6 "s2" "team" "ann" 10
    ∷ heartbeat_call 8 "s1" 10
    ∷ expire_call 30 "team"
    ∷ create_call 31 "s3" "team" "ann" 10
    ∷ close_call "s3"
    ∷ cleanup_call "team"
    ∷ []

new_manager-IsSound_example : IsSound (after_session_calls plain_sessions [] day)
new_manager-IsSound_example = new_manager-IsSound plain_sessions day

expire_sessions_lem_example :
    let after = expire_sessions plain_sessions 20 three "team" in
    ((id : String) → lookup id after.0 ≡ expired_at "team" 20 (lookup id three) (lookup id three))
    × (after.1 ≡ map (λ s. s.profile_id) (keep (is_due "team" 20) (all_sessions three)))
expire_sessions_lem_example =
    expire_sessions_lem plain_sessions 20 three "team" plain-Unvetoed three-Distinct three-AllStored

cleanup_closed_lem_at :
    let after = cleanup_closed plain_sessions three "team" in
    ((id : String) → lookup id after.0 ≡ cleaned_at "team" (lookup id three) (lookup id three))
    × (after.1 ≡ length (keep (is_closed_of "team") (all_sessions three)))
cleanup_closed_lem_at =
    cleanup_closed_lem plain_sessions three "team" plain-Unvetoed three-Distinct three-AllStored

abbrev dan : String → Session
dan id = new_session 40 id "team" "dan" 10

abbrev first_in : Sessions
first_in = insert "a" (dan "a") three

abbrev both_in : Sessions
both_in = insert "b" (new_session 41 "b" "team" "dan" 10) first_in

create_session_race_example :
    (lookup "a" both_in ≡ some (dan "a"))
    × (lookup "b" both_in ≡ some (new_session 41 "b" "team" "dan" 10))
    × (is_active_of "team" "dan" (dan "a") ≡ true)
    × (is_active_of "team" "dan" (new_session 41 "b" "team" "dan" 10) ≡ true)
    × (create_session plain_sessions 41 "b" first_in "team" "dan" 10 ≡ err duplicate_active)
unfolding create_session admit_session has_active_session plain_create lift create_in
    is_valid_session lookup insert
create_session_race_example =
    create_session_race plain_sessions 40 41 "a" "b" three first_in both_in "team" "dan" 10
      (dan "a") (new_session 41 "b" "team" "dan" 10) (λ e. false≢true ((eq_iff "a" "b").1 e)) refl
      refl
