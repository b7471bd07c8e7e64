-- ===== src/Multidevice/Access/Permitted.antt =====
-- internal/core/multidevice/access_control.go: when `EvaluatePermission` lets a request through, and what a
-- denial leaves behind.
use aps.Base.{
  ℕ, ◌≤◌, String, Bool, true, false, not, ◌&&◌, ◌≡◌, ◌≢◌, ◌↔◌, ◌⊎◌, inl, inr, refl, Option, none,
  some, List, [], ◌∷◌, Result, ok, err, any, contains, nat_eq, ◌==◌, IsIn, at_head, in_tail,
  contains→IsIn, IsIn→contains, arith, Bool-cases, eq_iff, nat_eq_iff, subst, sym, ap, false≢true,
}
use aps.Multidevice.Presence.{PresenceState, state_eq, unlinked}
use aps.Multidevice.RateLimit.{
  Buckets, consume, token_unit, refill, get_bucket, take_token, rate_limit_key,
}
use aps.Multidevice.Devices.{
  AccessSchedule, DevicePermissions, WorkspaceDeviceLink, FileRead, LinkError,
}
use aps.Multidevice.Access.{
  Policy, allow_all, allow_list, deny_list, odd_mode, PolicyMode, load_policy, is_device_allowed,
  policy_permits, check_role_permission, LocalTime, Clock, time_for, our_day, text_ltb, is_empty,
  is_within_schedule, schedule_permits, rate_limit, AccessDenied, Request, limit_rate, refusal,
  evaluate_permission,
}

-- The policy names the device, or does not name it, as its mode says.
abbrev pub Admits : PolicyMode → Policy → String → Type 0
Admits allow_list p device_id = IsIn device_id p.allow_devices
Admits deny_list p device_id = ¬ (IsIn device_id p.deny_devices)
Admits _ p device_id = Unit

abbrev pub PolicyAdmits : Option Policy → String → Type 0
PolicyAdmits none device_id = Unit
PolicyAdmits (some p) device_id = Admits p.mode p device_id

-- The five actions that a role is asked for.
abbrev pub RoleGrants : DevicePermissions → String → Type 0
RoleGrants perms action =
    (action ≡ "read" → perms.can_read ≡ true)
    × (action ≡ "write" → perms.can_write ≡ true)
    × (action ≡ "execute" → perms.can_execute ≡ true)
    × (action ≡ "manage" → perms.can_manage ≡ true)
    × (action ≡ "sync" → perms.can_sync ≡ true)

abbrev pub ActionListed : List String → String → Type 0
ActionListed allowed action = (allowed ≡ []) ⊎ IsIn action allowed

abbrev pub Covers : AccessSchedule → LocalTime → Type 0
Covers schedule t =
    ((schedule.days_of_week ≡ []) ⊎ IsIn (our_day t) schedule.days_of_week)
    × ((schedule.start_time ≡ "")
        ⊎ ((schedule.end_time ≡ "")
            ⊎ ((text_ltb t.hour_minute schedule.start_time ≡ false)
                × (text_ltb t.hour_minute schedule.end_time ≡ true))))

abbrev pub InSchedule : Clock → Option AccessSchedule → Type 0
InSchedule clock none = Unit
InSchedule clock (some schedule) = Covers schedule (time_for clock schedule)

contains_iff : (xs : List String) (s : String) → (contains xs s ≡ true) ↔ IsIn s xs
contains_iff xs s = (contains→IsIn xs s, IsIn→contains xs s)

Admits-iff :
    (mode : PolicyMode) (p : Policy) (device_id : String)
    → p.mode ≡ mode
    → (is_device_allowed p device_id ≡ true) ↔ Admits mode p device_id
unfolding is_device_allowed
Admits-iff allow_all p d e = ground arith
Admits-iff allow_list p d e = ground (arith, contains_iff p.allow_devices d)
Admits-iff deny_list p d e = ground (arith, contains_iff p.deny_devices d)
Admits-iff (odd_mode s) p d e = ground arith

only : (action a b : String) → (a == b) ≡ false → (action == a) ≡ true → (action == b) ≡ false
only action a b apart h = subst (λ x. (x == b) ≡ false) (sym ((eq_iff action a).0 h)) apart

role_iff :
    (perms : DevicePermissions) (action : String)
    → (check_role_permission perms action ≡ true) ↔ RoleGrants perms action
unfolding check_role_permission
role_iff perms action = ground (
  arith,
  eq_iff action "read",
  eq_iff action "write",
  eq_iff action "execute",
  eq_iff action "manage",
  eq_iff action "sync",
  only action "read" "write" refl,
  only action "read" "execute" refl,
  only action "read" "manage" refl,
  only action "read" "sync" refl,
  only action "write" "execute" refl,
  only action "write" "manage" refl,
  only action "write" "sync" refl,
  only action "execute" "manage" refl,
  only action "execute" "sync" refl,
  only action "manage" "sync" refl,
)

any→IsIn : (n : ℕ) (xs : List ℕ) → any (nat_eq n) xs ≡ true → IsIn n xs
any→IsIn n [] h = absurd (false≢true h)
any→IsIn n (x ∷ xs) h = elim (Bool-cases (nat_eq n x)) [
  | inl e ↦ subst (λ y. IsIn n (y ∷ xs)) ((nat_eq_iff n x).0 e) at_head
  | inr d ↦ in_tail (any→IsIn n xs (ground arith))
]

IsIn→any : (n : ℕ) (xs : List ℕ) → IsIn n xs → any (nat_eq n) xs ≡ true
IsIn→any n [] h = elim h [ ]
IsIn→any n (x ∷ xs) at_head = ground arith
IsIn→any n (x ∷ xs) (in_tail h) = ground (arith, IsIn→any n xs h)

guard_iff :
    {A P : Type 0} (xs : List A) (test : Bool)
    → (test ≡ true) ↔ P
    → ((not (is_empty xs) && not test) ≡ false) ↔ ((xs ≡ []) ⊎ P)
guard_iff [] test e = (λ _. inl refl, λ _. refl)
guard_iff (x ∷ xs) test e = ground (arith, e)

within_iff :
    (clock : Clock) (schedule : AccessSchedule)
    → (is_within_schedule clock schedule ≡ true) ↔ Covers schedule (time_for clock schedule)
unfolding is_within_schedule
within_iff clock schedule =
    let t = time_for clock schedule in
    let day = our_day t in
    let days = schedule.days_of_week in
    ground (
      arith,
      guard_iff days (any (nat_eq day) days) (any→IsIn day days, IsIn→any day days),
      eq_iff schedule.start_time "",
      eq_iff schedule.end_time "",
    )

schedule_iff :
    (clock : Clock) (o : Option AccessSchedule)
    → (schedule_permits clock o ≡ true) ↔ InSchedule clock o
schedule_iff clock none = ground arith
schedule_iff clock (some schedule) = within_iff clock schedule

-- What must hold for steps 2 to 6 to pass.
abbrev pub Unrefused : Clock → Option Policy → WorkspaceDeviceLink → Request → Type 0
Unrefused clock loaded link r =
    (link.status ≢ unlinked)
    × PolicyAdmits loaded r.device_id
    × RoleGrants link.permissions r.action
    × ¬ (IsIn r.action link.permissions.denied_actions)
    × ActionListed link.permissions.allowed_actions r.action
    × InSchedule clock link.permissions.access_schedule

unlinked_iff : (s : PresenceState) → (state_eq s unlinked ≡ true) ↔ (s ≡ unlinked)
unlinked_iff s = ground arith

policy_iff :
    (loaded : Option Policy) (device_id : String)
    → (policy_permits loaded device_id ≡ true) ↔ PolicyAdmits loaded device_id
policy_iff none d = ground arith
policy_iff (some p) d = Admits-iff p.mode p d refl

refusal_iff :
    (clock : Clock) (loaded : Option Policy) (link : WorkspaceDeviceLink) (r : Request)
    → (refusal clock loaded link r ≡ none) ↔ Unrefused clock loaded link r
unfolding refusal
refusal_iff clock loaded link r =
    let perms = link.permissions in
    ground (
      arith,
      unlinked_iff link.status,
      policy_iff loaded r.device_id,
      role_iff perms r.action,
      contains_iff perms.denied_actions r.action,
      guard_iff perms.allowed_actions (contains perms.allowed_actions r.action)
          (contains_iff perms.allowed_actions r.action),
      schedule_iff clock perms.access_schedule,
    )

-- A whole token is in the bucket of the device, or no limit is set.
abbrev pub HasToken : Clock → Buckets → Request → ℕ → Type 0
HasToken clock buckets r limit =
    (limit ≡ 0)
    ⊎ (token_unit
        ≤ (refill clock.now (
            get_bucket clock.now buckets (rate_limit_key r.device_id r.workspace_id) limit)).tokens)

limit_rate_iff :
    (clock : Clock) (buckets : Buckets) (r : Request) (limit : ℕ)
    → ((limit_rate clock buckets r limit).0 ≡ none) ↔ HasToken clock buckets r limit
unfolding limit_rate consume take_token
limit_rate_iff clock buckets r limit = ground arith

-- Where a link and a policy pass, the request is let through.
abbrev pub Permitted :
    Clock → Buckets → Result LinkError WorkspaceDeviceLink → Option Policy → Request → Type 0
Permitted clock buckets found loaded r =
    (link : WorkspaceDeviceLink) × ((found ≡ ok link)
      × (Unrefused clock loaded link r
          × HasToken clock buckets r link.permissions.rate_limit_per_min))

abbrev value_or : {E A : Type 0} → A → Result E A → A
value_or d (ok a) = a
value_or d (err e) = d

passed_iff :
    (clock : Clock) (buckets : Buckets) (link : WorkspaceDeviceLink) (file : FileRead Policy)
    (r : Request)
    → ((evaluate_permission clock buckets (ok link) file r).0 ≡ none) ↔ (
        Unrefused clock (load_policy r.workspace_id file) link r
        × HasToken clock buckets r link.permissions.rate_limit_per_min)
unfolding evaluate_permission
passed_iff clock buckets link file r = ground (
  arith,
  refusal_iff clock (load_policy r.workspace_id file) link r,
  limit_rate_iff clock buckets r link.permissions.rate_limit_per_min,
)

same_value :
    (a b : WorkspaceDeviceLink)
    → ◌≡◌ {A = Result LinkError WorkspaceDeviceLink} (ok a) (ok b)
    → a ≡ b
same_value a b h = ap (value_or a) h

-- A request passes exactly where a link of the device was loaded whose status is not unlinked, the
-- workspace's policy admits the device (one that did not load admits all), the permission of each
-- of the five known actions is set if it is the action asked for, the action is not on the denied list
-- and is on the allowed list if that has entries, the time is in the schedule if there is one, and
-- the device's bucket holds a whole token if a limit is set.
pub evaluate_permission_iff :
    (clock : Clock) (buckets : Buckets) (found : Result LinkError WorkspaceDeviceLink)
    (file : FileRead Policy) (r : Request)
    → ((evaluate_permission clock buckets found file r).0 ≡ none)
      ↔ Permitted clock buckets found (load_policy r.workspace_id file) r
unfolding evaluate_permission
evaluate_permission_iff clock buckets (err e) file r =
    (λ h. absurd (ground (arith, h)), λ p. absurd (ground (arith, p.1.0)))
evaluate_permission_iff clock buckets (ok link) file r =
    let loaded = load_policy r.workspace_id file in
    let passes = λ (x : WorkspaceDeviceLink).
      Unrefused clock loaded x r × HasToken clock buckets r x.permissions.rate_limit_per_min in
    (
      λ h. (link, (refl, (passed_iff clock buckets link file r).0 h)),
      λ p.
          (passed_iff clock buckets link file r).1
            (subst passes (same_value p.0 link (sym p.1.0)) p.1.1),
    )

-- A request that is denied before the rate limit is reached takes no token: the rate limiter is as it was.
pub denied_takes_no_token :
    (clock : Clock) (buckets : Buckets) (found : Result LinkError WorkspaceDeviceLink)
    (file : FileRead Policy) (r : Request) (d : AccessDenied)
    → (evaluate_permission clock buckets found file r).0 ≡ some d
    → d.step ≢ rate_limit
    → (evaluate_permission clock buckets found file r).1 ≡ buckets
unfolding evaluate_permission limit_rate
denied_takes_no_token clock buckets (err e) file r d h n = refl
denied_takes_no_token clock buckets (ok link) file r d h n = ground arith
