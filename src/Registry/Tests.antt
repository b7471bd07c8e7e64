-- ===== src/Registry/Tests.antt =====
-- internal/core/session/registry.go: a registry with an errored session, one that was seen long ago and one that was
-- seen just now, and the theorems at them.
use aps.Base.{
  true, false≢true, ◌≡◌, refl, none, some, List, [], ◌∷◌, ok, err, contains, lookup, has_key,
  insert, delete, if◌then◌else◌, ◌==◌, arith, eq_iff,
}
use native.Mathlib.Decide.{ℕ_discrete}
use aps.Registry.{
  session_key, SessionInfo, session_active, session_errored, KvRows, session_started,
  session_stopped, store_failed, invalid_transition, kv_get_session, kv_list_sessions,
  read_sessions, kv_put_session, registered,
}
use aps.Registry.Calls.{
  register, get_info, check_transition, update_session_status, remove_expired, cleanup_inactive,
  RegistryCall, register_call, unregister_call, status_call, heartbeat_call, metadata_call,
  cleanup_call, run_calls,
}
use aps.Registry.Rows.{stored, IsSound, IsSound-kv_put_session}
use aps.Registry.Sweeping.{cleanup_inactive_lem, expired_stored}
use aps.Registry.Effects.{get_info-register}
use aps.Registry.Runs.{IsErrored, run_calls-IsErrored}
use aps.Registry.Migration.{migrate_legacy, legacy_session, migrate_legacy_lem}
use aps.Registry.Table.{session, broken, old, fresh, table, SessionInfo-discrete}

abbrev one_row : KvRows
one_row = ("session/s1", "broken") ∷ []

abbrev two_rows : KvRows
two_rows = ("session/s1", "broken") ∷ ("session/s3", "fresh") ∷ []

abbrev three_rows : KvRows
three_rows = ("session/s1", "broken") ∷ ("session/s3", "fresh") ∷ ("session/s2", "old") ∷ []

put_broken : kv_put_session table [] broken ≡ ok one_row
unfolding SessionInfo-discrete ℕ_discrete insert
put_broken = refl

put_fresh : kv_put_session table one_row fresh ≡ ok two_rows
unfolding SessionInfo-discrete ℕ_discrete insert
put_fresh = refl

put_old : kv_put_session table two_rows old ≡ ok three_rows
unfolding SessionInfo-discrete ℕ_discrete insert
put_old = refl

no_rows-IsSound : IsSound table []
unfolding lookup
no_rows-IsSound k raw starts found = absurd (ground (arith, found))

two_rows-IsSound : IsSound table two_rows
two_rows-IsSound =
    IsSound-kv_put_session table one_row two_rows fresh put_fresh
      (IsSound-kv_put_session table [] one_row broken put_broken no_rows-IsSound)

three_rows-IsSound : IsSound table three_rows
three_rows-IsSound = IsSound-kv_put_session table two_rows three_rows old put_old two_rows-IsSound

-- An expired session is removed, the errored one stays, and the fresh one is not due.
cleanup_removes : cleanup_inactive table 95 20 three_rows ≡ (
  ("session/s1", "broken") ∷ ("session/s3", "fresh") ∷ [],
  ok ("s2" ∷ [], session_stopped "s2" "ann" "expired" "" ∷ []),
)
unfolding cleanup_inactive kv_list_sessions read_sessions remove_expired lookup insert delete
cleanup_removes = refl

-- The store fails at the second deletion: the first one stands, and neither its ID nor its event is returned.
cleanup_fails :
    cleanup_inactive table 200 20 three_rows
    ≡ (("session/s1", "broken") ∷ ("session/s3", "fresh") ∷ [], err (store_failed "locked"))
unfolding cleanup_inactive kv_list_sessions read_sessions remove_expired lookup insert delete
cleanup_fails = refl

-- The errored session may be set to errored once more, and to nothing else.
errored_again : check_transition table session_errored session_errored ≡ true
unfolding check_transition
errored_again = refl

errored_resumed :
    update_session_status table 5 "" three_rows "s1" session_active ≡ err invalid_transition
unfolding update_session_status get_info kv_get_session check_transition lookup
errored_resumed = refl

cleanup_inactive_lem_example :
    (contains ("s2" ∷ []) "s2" ≡ expired_stored 95 20 (stored table three_rows "s2"))
    × (stored table (cleanup_inactive table 95 20 three_rows).0 "s2" ≡ (
        if expired_stored 95 20 (stored table three_rows "s2")
        then none
        else stored table three_rows "s2"))
unfolding cleanup_inactive kv_list_sessions read_sessions remove_expired lookup insert delete
cleanup_inactive_lem_example =
    cleanup_inactive_lem table 95 20 three_rows ("s2" ∷ [])
      (session_stopped "s2" "ann" "expired" "" ∷ []) "s2" three_rows-IsSound refl

-- `fresh` as it comes to Register.
abbrev coming : SessionInfo
coming = session "s3" session_active 0 0

get_info-register_example :
    (stored table one_row "s3" ≡ none)
    × (fresh ≡ registered 90 coming)
    × (stored table two_rows "s1"
        ≡ (if "s3" == "s1" then some (registered 90 coming) else stored table one_row "s1"))
    × (session_started "s3" "ann" "sh" 7 "basic" "hello" ∷ []
        ≡ session_started "s3" "ann" "sh" 7 "basic" "hello" ∷ [])
unfolding register get_info kv_get_session SessionInfo-discrete ℕ_discrete lookup insert
get_info-register_example =
    get_info-register table 90 "hello" one_row two_rows coming fresh
      (session_started "s3" "ann" "sh" 7 "basic" "hello" ∷ []) "s1" refl refl

abbrev calls : List RegistryCall
calls =
    register_call 100 "" broken
    ∷ status_call 101 "" "s1" session_active
    ∷ heartbeat_call 102 "s2"
    ∷ metadata_call 103 "s1" (("a", "b") ∷ [])
    ∷ cleanup_call 900 1
    ∷ unregister_call "" "s2"
    ∷ []

run_calls-IsErrored_example :
    IsSound table (run_calls table three_rows calls)
    × IsErrored table (run_calls table three_rows calls) "s1"
unfolding lookup
run_calls-IsErrored_example =
    run_calls-IsErrored table three_rows "s1" calls three_rows-IsSound
      (tt, (tt, (tt, (tt, (tt, ((λ e. false≢true ((eq_iff "s2" "s1").1 e)), tt))))))
      (broken, refl, refl)

-- The row of `s2` stays, though the file has another session under this ID.
legacy_moved :
    migrate_legacy table
      (("session/s2", "old") ∷ [])
      (("s1", some broken) ∷ ("s2", some fresh) ∷ ("s4", none) ∷ [])
    ≡ (("session/s2", "old") ∷ ("session/s1", "broken") ∷ [], none)
unfolding migrate_legacy SessionInfo-discrete ℕ_discrete lookup insert
legacy_moved = refl

migrate_legacy_lem_example :
    stored table (migrate_legacy table one_row (("s3", some fresh) ∷ [])).0 "s3" ≡ (
      if has_key (session_key "s3") one_row
      then stored table one_row "s3"
      else legacy_session (("s3", some fresh) ∷ []) "s3")
unfolding migrate_legacy SessionInfo-discrete ℕ_discrete lookup insert
migrate_legacy_lem_example =
    migrate_legacy_lem table one_row (("s3", some fresh) ∷ []) "s3" (refl, tt) refl
