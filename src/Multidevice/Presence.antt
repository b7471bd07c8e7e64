-- ===== src/Multidevice/Presence.antt =====
-- internal/core/multidevice/presence.go with its records of types.go: which devices of a workspace are
-- online. Times and timeouts are nanoseconds, and the clock does not go back below a heartbeat.
pub mod Timeouts
pub mod Tests
use Prim.Native.String.{◌++◌ as text_append}
use aps.Base.{
  ℕ, ◌-◌, String, Bool, true, false, ◌||◌, Option, none, some, List, [], ◌∷◌, ◌++◌, keep, Result,
  ok, err, Dict, lookup, insert, delete, ltb, ◌==◌, if◌then◌else◌, ◌>>=◌, ◌>>◌, refuse_if,
}

-- `odd` is a text that is none of the constants.
pub data PresenceState : Type 0 where
  linking online away offline unlinked : PresenceState
  odd : String → PresenceState

abbrev pub state_eq : PresenceState → PresenceState → Bool
state_eq linking linking = true
state_eq online online = true
state_eq away away = true
state_eq offline offline = true
state_eq unlinked unlinked = true
state_eq (odd s) (odd t) = s == t
state_eq _ _ = false

pub record DevicePresence : Type 0 where
  pub device_id : String
  pub workspace_id : String
  pub state : PresenceState
  pub last_heartbeat : ℕ
  pub last_activity : ℕ
  pub client_version : String
  pub sync_lag : ℕ
  pub offline_queue : ℕ

pub record PresenceConfig : Type 0 where
  pub heartbeat_interval : ℕ
  pub away_timeout : ℕ
  pub offline_timeout : ℕ

-- `DefaultPresenceConfig`
abbrev pub default_presence_config : PresenceConfig
default_presence_config = record {
  heartbeat_interval = 10000000000;
  away_timeout = 30000000000;
  offline_timeout = 120000000000;
}

pub record PresenceTransition : Type 0 where
  pub device_id : String
  pub workspace_id : String
  pub from : PresenceState
  pub to : PresenceState
  pub at : ℕ

abbrev pub Presences : Type 0
Presences = Dict DevicePresence

-- `presenceKey`
unfoldable pub presence_key : String → String → String
presence_key workspace_id device_id = text_append workspace_id (text_append ":" device_id)

pub data PresenceError : Type 0 where
  device_required workspace_required no_record already_in_state : PresenceError

abbrev pub new_presence : ℕ → String → String → PresenceState → DevicePresence
new_presence now device_id workspace_id state = record {
  device_id = device_id;
  workspace_id = workspace_id;
  state = state;
  last_heartbeat = now;
  last_activity = now;
  client_version = "";
  sync_lag = 0;
  offline_queue = 0;
}

-- The write of `RecordHeartbeat` to a record that exists.
abbrev pub revived : PresenceState → PresenceState
revived away = online
revived offline = online
revived s = s

unfoldable pub beat : ℕ → DevicePresence → DevicePresence
beat now p = record p { last_heartbeat = now; state = revived p.state }

abbrev beaten : ℕ → String → String → Option DevicePresence → DevicePresence
beaten now device_id workspace_id none = new_presence now device_id workspace_id online
beaten now device_id workspace_id (some p) = beat now p

-- `RecordHeartbeat`
unfoldable pub record_heartbeat : ℕ → Presences → String → String → Result PresenceError Presences
record_heartbeat now presences device_id workspace_id = do
  refuse_if (device_id == "") device_required
  refuse_if (workspace_id == "") workspace_required
  let key = presence_key workspace_id device_id
  ok (insert key (beaten now device_id workspace_id (lookup key presences)) presences)

-- `GetPresence`
unfoldable pub get_presence : Presences → String → String → Option DevicePresence
get_presence presences device_id workspace_id =
    lookup (presence_key workspace_id device_id) presences

abbrev pub records : Presences → List DevicePresence
records [] = []
records (entry ∷ rest) = entry.1 ∷ records rest

-- `ListPresence`
unfoldable pub list_presence : Presences → String → List DevicePresence
list_presence presences workspace_id =
    keep (λ p. p.workspace_id == workspace_id) (records presences)

abbrev is_online_state : Option DevicePresence → Bool
is_online_state none = false
is_online_state (some p) = state_eq p.state online

-- `IsOnline`
unfoldable pub is_online : Presences → String → String → Bool
is_online presences device_id workspace_id =
    is_online_state (lookup (presence_key workspace_id device_id) presences)

-- The `switch` of `CheckTimeouts`: the state that a device goes to after `elapsed`, if it moves.
unfoldable pub timed_out : PresenceConfig → ℕ → PresenceState → Option PresenceState
timed_out config elapsed online =
    if ltb config.offline_timeout elapsed
    then some offline
    else if ltb config.away_timeout elapsed
    then some away
    else none
timed_out config elapsed away = if ltb config.offline_timeout elapsed then some offline else none
timed_out config elapsed _ = none

abbrev moved : ℕ → DevicePresence → Option PresenceState → DevicePresence × List PresenceTransition
moved now p none = (p, [])
moved now p (some to) = (
  record p { state = to },
  record {
    device_id = p.device_id;
    workspace_id = p.workspace_id;
    from = p.state;
    to = to;
    at = now;
  }
      ∷ [],
)

-- One turn of the loop of `CheckTimeouts`.
unfoldable pub check_one :
    PresenceConfig → ℕ → DevicePresence → DevicePresence × List PresenceTransition
unfolding timed_out
check_one config now p = moved now p (timed_out config (now - p.last_heartbeat) p.state)

-- `CheckTimeouts`
unfoldable pub check_timeouts : PresenceConfig → ℕ → Presences → Presences × List PresenceTransition
unfolding check_one
check_timeouts config now [] = ([], [])
check_timeouts config now (entry ∷ rest) =
    let (p, t) = check_one config now entry.1 in
    let (later, ts) = check_timeouts config now rest in ((entry.0, p) ∷ later, t ++ ts)

abbrev transition_of : ℕ → String → String → PresenceState → PresenceState → PresenceTransition
transition_of now device_id workspace_id from to = record {
  device_id = device_id;
  workspace_id = workspace_id;
  from = from;
  to = to;
  at = now;
}

-- `TransitionState`
unfoldable pub transition_state :
    ℕ
    → Presences
    → String
    → String
    → PresenceState
    → Result PresenceError (PresenceTransition × Presences)
transition_state now presences device_id workspace_id to =
    let key = presence_key workspace_id device_id in
    elim (lookup key presences) [
      | none ↦ ok (
        transition_of now device_id workspace_id offline to,
        insert key (new_presence now device_id workspace_id to) presences,
      )
      | some p ↦
          if state_eq p.state to
          then err already_in_state
          else ok (
            transition_of now device_id workspace_id p.state to,
            insert key (record p { state = to; last_activity = now }) presences,
          )
    ]

-- `RemovePresence`
unfoldable pub remove_presence : Presences → String → String → Presences
remove_presence presences device_id workspace_id =
    delete (presence_key workspace_id device_id) presences
