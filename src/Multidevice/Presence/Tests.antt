-- ===== src/Multidevice/Presence/Tests.antt =====
-- internal/core/multidevice/presence.go: the theorems at two devices.
use aps.Base.{ℕ, ◌+◌, true, ◌≡◌, refl, [], ◌∷◌, length, count, ok, lookup, insert, arith}
use aps.Multidevice.Presence.{
  linking, online, Presences, default_presence_config, new_presence, get_presence, is_online,
  presence_key, record_heartbeat, beat, check_timeouts, check_one,
}
use aps.Multidevice.Presence.Timeouts.{
  on_some, settled, check_timeouts_lem, check_timeouts_again, is_overdue, length-check_timeouts,
  heartbeat_online,
}

abbrev two : Presences
two =
    ("w:phone", new_presence 0 "phone" "w" online)
    ∷ ("w:desk", new_presence 100000000000 "desk" "w" linking)
    ∷ []

abbrev late : ℕ
late = 130000000000

check_timeouts_lem_example :
    get_presence (check_timeouts default_presence_config late two).0 "phone" "w"
    ≡ on_some (settled default_presence_config late) (get_presence two "phone" "w")
check_timeouts_lem_example = check_timeouts_lem default_presence_config late two "phone" "w"

check_timeouts_again_at :
    check_timeouts default_presence_config late (check_timeouts default_presence_config late two).0
    ≡ ((check_timeouts default_presence_config late two).0, [])
check_timeouts_again_at = check_timeouts_again default_presence_config late two

timeouts_counted :
    length (check_timeouts default_presence_config late two).1
    ≡ count (is_overdue default_presence_config late) two
timeouts_counted = length-check_timeouts default_presence_config late two

phone_times_out : length (check_timeouts default_presence_config late two).1 ≡ 1
unfolding check_timeouts check_one
phone_times_out = refl

abbrev beaten_two : Presences
beaten_two =
    ("w:phone", record (new_presence 0 "phone" "w" online) { last_heartbeat = late })
    ∷ ("w:desk", new_presence 100000000000 "desk" "w" linking)
    ∷ []

phone_beats : record_heartbeat late two "phone" "w" ≡ ok beaten_two
unfolding record_heartbeat beat presence_key lookup insert
phone_beats = refl

heartbeat_online_at :
    is_online (check_timeouts default_presence_config (late + 30000000000) beaten_two).0 "phone" "w"
    ≡ true
unfolding get_presence presence_key lookup
heartbeat_online_at =
    heartbeat_online default_presence_config late (late + 30000000000) two "phone" "w" refl
      (omega arith) (omega arith) phone_beats
