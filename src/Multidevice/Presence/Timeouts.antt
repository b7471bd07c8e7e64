-- ===== src/Multidevice/Presence/Timeouts.antt =====
-- internal/core/multidevice/presence.go: what a scan for timeouts does to every record, and what a
-- heartbeat undoes.
use aps.Base.{
  ℕ, ◌+◌, ◌-◌, ◌≤◌, String, Bool, true, ◌≡◌, inl, inr, refl, Option, none, some, [], ◌∷◌, ok,
  lookup, ltb, if◌then◌else◌, arith, eq_refl, lookup-insert, Option-cases, length, ap, ◌∙◌, count,
  not, length-append,
}
use aps.Multidevice.Presence.{
  PresenceState, linking, online, away, offline, unlinked, odd, state_eq, DevicePresence,
  PresenceConfig, Presences, presence_key, new_presence, revived, beat, record_heartbeat,
  get_presence, is_online, check_one, check_timeouts,
}

abbrev pub on_some {ℓ κ} : {A : Type ℓ} {B : Type κ} → (A → B) → Option A → Option B
on_some f none = none
on_some f (some a) = some (f a)

lookup-check_timeouts :
    (config : PresenceConfig) (now : ℕ) (key : String) (ps : Presences)
    → lookup key (check_timeouts config now ps).0
      ≡ on_some (λ p. (check_one config now p).0) (lookup key ps)
unfolding check_timeouts lookup
lookup-check_timeouts config now key [] = refl
lookup-check_timeouts config now key (entry ∷ rest) =
    ground (arith, lookup-check_timeouts config now key rest)

-- The state that a device which counts as present has after so long without a heartbeat.
abbrev pub presence_after : PresenceConfig → ℕ → PresenceState → PresenceState
presence_after config elapsed online =
    if ltb config.offline_timeout elapsed
    then offline
    else if ltb config.away_timeout elapsed
    then away
    else online
presence_after config elapsed away = if ltb config.offline_timeout elapsed then offline else away
presence_after config elapsed s = s

abbrev pub settled : PresenceConfig → ℕ → DevicePresence → DevicePresence
settled config now p = record p { state = presence_after config (now - p.last_heartbeat) p.state }

check_one-settled :
    (config : PresenceConfig) (now : ℕ) (p : DevicePresence)
    → (check_one config now p).0 ≡ settled config now p
unfolding check_one
check_one-settled config now p = ground arith

on_some-settled :
    (config : PresenceConfig) (now : ℕ) (o : Option DevicePresence)
    → on_some (λ p. (check_one config now p).0) o ≡ on_some (settled config now) o
on_some-settled config now none = refl
on_some-settled config now (some p) = ap some (check_one-settled config now p)

-- After a scan, each device that was online or away stands where the time since its last heartbeat puts
-- it (offline past the offline timeout, else away past the away timeout, else online if it was), every
-- other device and every other field is as before, and no record appears or goes.
pub check_timeouts_lem :
    (config : PresenceConfig) (now : ℕ) (ps : Presences) (device_id workspace_id : String)
    → get_presence (check_timeouts config now ps).0 device_id workspace_id
      ≡ on_some (settled config now) (get_presence ps device_id workspace_id)
unfolding get_presence
check_timeouts_lem config now ps device_id workspace_id =
    let key = presence_key workspace_id device_id in
    lookup-check_timeouts config now key ps ∙ on_some-settled config now (lookup key ps)

check_one_again :
    (config : PresenceConfig) (now : ℕ) (p : DevicePresence)
    → check_one config now (check_one config now p).0 ≡ ((check_one config now p).0, [])
unfolding check_one
check_one_again config now p = ground arith

-- A second scan at the same time changes nothing and reports nothing.
pub check_timeouts_again :
    (config : PresenceConfig) (now : ℕ) (ps : Presences)
    → let once = (check_timeouts config now ps).0 in check_timeouts config now once ≡ (once, [])
unfolding check_timeouts
check_timeouts_again config now [] = refl
check_timeouts_again config now (entry ∷ rest) =
    rw (check_one_again config now entry.1) (rw (check_timeouts_again config now rest))

-- The record's state is not the one that the scan gives it.
abbrev pub is_overdue : PresenceConfig → ℕ → String × DevicePresence → Bool
is_overdue config now entry =
    not
      (state_eq entry.1.state (presence_after config (now - entry.1.last_heartbeat) entry.1.state))

state_eq_refl : (s : PresenceState) → state_eq s s ≡ true
state_eq_refl (odd s) = eq_refl s
state_eq_refl linking = refl
state_eq_refl online = refl
state_eq_refl away = refl
state_eq_refl offline = refl
state_eq_refl unlinked = refl

check_one-length :
    (config : PresenceConfig) (now : ℕ) (entry : String × DevicePresence)
    → length (check_one config now entry.1).1 ≡ (if is_overdue config now entry then 1 else 0)
unfolding check_one
check_one-length config now entry = ground (arith, state_eq_refl entry.1.state)

-- A scan reports as many transitions as there are records whose state it changes.
pub length-check_timeouts :
    (config : PresenceConfig) (now : ℕ) (ps : Presences)
    → length (check_timeouts config now ps).1 ≡ count (is_overdue config now) ps
unfolding check_timeouts
length-check_timeouts config now [] = refl
length-check_timeouts config now (entry ∷ rest) =
    let (p, t) = check_one config now entry.1 in
    ground (
      arith,
      check_one-length config now entry,
      length-check_timeouts config now rest,
      length-append t (check_timeouts config now rest).1,
    )

-- What a heartbeat can bring online: a device with no record, or one that is online, away or offline.
abbrev pub Revivable : Option DevicePresence → Type 0
Revivable none = Unit
Revivable (some p) = revived p.state ≡ online

beaten_online :
    (now : ℕ) (ps : Presences) (device_id workspace_id : String) {ps' : Presences}
    → Revivable (get_presence ps device_id workspace_id)
    → record_heartbeat now ps device_id workspace_id ≡ ok ps'
    → (q : DevicePresence) × (get_presence ps' device_id workspace_id ≡ some q)
      × (q.state ≡ online)
      × (q.last_heartbeat ≡ now)
unfolding get_presence record_heartbeat beat
beaten_online now ps device_id workspace_id {ps'} alive h =
    let key = presence_key workspace_id device_id in
    elim (Option-cases (lookup key ps)) [
      | inl e ↦
          let q = new_presence now device_id workspace_id online in
          (q, ground (arith, lookup-insert key key q ps, eq_refl key), refl, refl)
      | inr (p, e) ↦
          let q = beat now p in
          (q, ground (arith, lookup-insert key key q ps, eq_refl key), ground arith, refl)
    ]

online_of_presence :
    (ps : Presences) (device_id workspace_id : String) (q : DevicePresence)
    → get_presence ps device_id workspace_id ≡ some q
    → q.state ≡ online
    → is_online ps device_id workspace_id ≡ true
unfolding get_presence is_online
online_of_presence ps device_id workspace_id q h k = ground arith

settled_online :
    (config : PresenceConfig) (later : ℕ) (q : DevicePresence)
    → config.away_timeout ≤ config.offline_timeout
    → later ≤ q.last_heartbeat + config.away_timeout
    → q.state ≡ online
    → (settled config later q).state ≡ online
settled_online config later q ordered soon h = ground arith

-- A device that sends a heartbeat, and was not linking or unlinked, is online, and still is after a
-- scan at any time up to the away timeout later.
pub heartbeat_online :
    (config : PresenceConfig) (now later : ℕ) (ps : Presences) (device_id workspace_id : String)
    {ps' : Presences}
    → Revivable (get_presence ps device_id workspace_id)
    → config.away_timeout ≤ config.offline_timeout
    → later ≤ now + config.away_timeout
    → record_heartbeat now ps device_id workspace_id ≡ ok ps'
    → is_online (check_timeouts config later ps').0 device_id workspace_id ≡ true
heartbeat_online config now later ps device_id workspace_id {ps'} alive ordered soon h =
    let (q, found, state, beat_at) = beaten_online now ps device_id workspace_id alive h in
    let after = check_timeouts_lem config later ps' device_id workspace_id in
    let there = settled_online config later q ordered (rw beat_at soon) state in
    online_of_presence (check_timeouts config later ps').0 device_id workspace_id
      (settled config later q) (after ∙ ap (on_some (settled config later)) found) there
