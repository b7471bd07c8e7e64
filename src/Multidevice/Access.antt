-- ===== src/Multidevice/Access.antt =====
-- internal/core/multidevice/access_control.go, with policies.go and the policy of manager.go: may a device
-- do an action in a workspace now. A call returns the denial, if there is one, and the rate limiter after it. The
-- texts of a denial (`Reason`, `Suggestion`) are left out: the step tells them apart.
pub mod Permitted
pub mod Grants
pub mod Tests
use Prim.Native.String.{compare as compare_text}
use text.Mathlib.Text.{is_lt}
use aps.Base.{
  ℕ, ◌+◌, ◌%◌, String, Bool, true, false, not, ◌&&◌, ◌||◌, Option, none, some, List, [], ◌∷◌,
  Result, ok, err, any, contains, ltb, nat_eq, ◌==◌, if◌then◌else◌,
}
use aps.Multidevice.Presence.{PresenceState, state_eq, unlinked}
use aps.Multidevice.RateLimit.{Buckets, Verdict, consume}
use aps.Multidevice.Devices.{
  AccessSchedule, DevicePermissions, WorkspaceDeviceLink, FileRead, missing, unreadable, parsed,
  LinkError,
}

-- `odd_mode` is a text that is none of the constants.
pub data PolicyMode : Type 0 where
  allow_all allow_list deny_list : PolicyMode
  odd_mode : String → PolicyMode

pub record Policy : Type 0 where
  pub workspace_id : String
  pub mode : PolicyMode
  pub allow_devices : List String
  pub deny_devices : List String

-- `DefaultPolicy`, and what `LoadPolicy` makes of a missing file
abbrev pub default_policy : String → Policy
default_policy workspace_id = record {
  workspace_id = workspace_id;
  mode = allow_all;
  allow_devices = [];
  deny_devices = [];
}

-- `LoadPolicy`
unfoldable pub load_policy : String → FileRead Policy → Option Policy
load_policy workspace_id missing = some (default_policy workspace_id)
load_policy workspace_id unreadable = none
load_policy workspace_id (parsed p) = some p

abbrev allowed_by : PolicyMode → Policy → String → Bool
allowed_by allow_all p device_id = true
allowed_by allow_list p device_id = contains p.allow_devices device_id
allowed_by deny_list p device_id = not (contains p.deny_devices device_id)
allowed_by (odd_mode s) p device_id = true

-- `IsDeviceAllowed`
unfoldable pub is_device_allowed : Policy → String → Bool
is_device_allowed p device_id = allowed_by p.mode p device_id

-- The test of step 3: a policy that does not load refuses nobody.
abbrev pub policy_permits : Option Policy → String → Bool
policy_permits none device_id = true
policy_permits (some p) device_id = is_device_allowed p device_id

-- `checkRolePermission`, true where it returns nil
unfoldable pub check_role_permission : DevicePermissions → String → Bool
check_role_permission perms action =
    if action == "read"
    then perms.can_read
    else if action == "write"
    then perms.can_write
    else if action == "execute"
    then perms.can_execute
    else if action == "manage"
    then perms.can_manage
    else if action == "sync"
    then perms.can_sync
    else true

-- What `time` says of an instant in a zone: Go's weekday (Sunday is 0) and the text of `Format("15:04")`.
pub record LocalTime : Type 0 where
  pub weekday : ℕ
  pub hour_minute : String

-- The clock during one call. `in_zone` gives `none` for a zone that `time.LoadLocation` does not know.
pub record Clock : Type 0 where
  pub now : ℕ
  pub local : LocalTime
  pub in_zone : String → Option LocalTime

abbrev local_or : LocalTime → Option LocalTime → LocalTime
local_or l none = l
local_or l (some z) = z

abbrev pub time_for : Clock → AccessSchedule → LocalTime
time_for clock schedule =
    if schedule.timezone == ""
    then clock.local
    else local_or clock.local (clock.in_zone schedule.timezone)

-- The day of the week, from Monday as 0.
abbrev pub our_day : LocalTime → ℕ
our_day t = (t.weekday + 6) % 7

-- Go's `<` on strings
abbrev pub text_ltb : String → String → Bool
text_ltb a b = is_lt (compare_text a b)

abbrev pub is_empty : {A : Type 0} → List A → Bool
is_empty [] = true
is_empty (x ∷ xs) = false

-- `isWithinSchedule`
unfoldable pub is_within_schedule : Clock → AccessSchedule → Bool
is_within_schedule clock schedule =
    let t = time_for clock schedule in
    let in_range =
      if not (schedule.start_time == "") && not (schedule.end_time == "")
      then if text_ltb t.hour_minute schedule.start_time
          || not (text_ltb t.hour_minute schedule.end_time)
        then false
        else true
      else true in
    if not (is_empty schedule.days_of_week) && not (any (nat_eq (our_day t)) schedule.days_of_week)
    then false
    else in_range

-- The test of step 6.
abbrev pub schedule_permits : Clock → Option AccessSchedule → Bool
schedule_permits clock none = true
schedule_permits clock (some schedule) = is_within_schedule clock schedule

pub data Step : Type 0 where
  link_existence link_status policy role_permission denied_actions allowed_actions : Step
  access_schedule rate_limit : Step

pub record AccessDenied : Type 0 where
  pub device_id : String
  pub workspace_id : String
  pub action : String
  pub resource : String
  pub step : Step
  pub retry_after : ℕ

-- Who asks for what.
pub record Request : Type 0 where
  pub workspace_id : String
  pub device_id : String
  pub action : String
  pub resource : String

abbrev pub denied : Request → Step → ℕ → AccessDenied
denied r step retry_after = record {
  device_id = r.device_id;
  workspace_id = r.workspace_id;
  action = r.action;
  resource = r.resource;
  step = step;
  retry_after = retry_after;
}

-- Step 7.
unfoldable pub limit_rate : Clock → Buckets → Request → ℕ → Option AccessDenied × Buckets
limit_rate clock buckets r limit =
    let (verdict, later) = consume clock.now buckets r.device_id r.workspace_id limit in
    if ltb 0 limit
    then (if verdict.allowed then none else some (denied r rate_limit verdict.retry_after), later)
    else (none, buckets)

-- Steps 2 to 6, on a link that was loaded: the step that refuses, if one does.
unfoldable pub refusal : Clock → Option Policy → WorkspaceDeviceLink → Request → Option Step
refusal clock loaded link r =
    let perms = link.permissions in
    if state_eq link.status unlinked
    then some link_status
    else if not (policy_permits loaded r.device_id)
    then some policy
    else if not (check_role_permission perms r.action)
    then some role_permission
    else if contains perms.denied_actions r.action
    then some denied_actions
    else if not (is_empty perms.allowed_actions) && not (contains perms.allowed_actions r.action)
    then some allowed_actions
    else if not (schedule_permits clock perms.access_schedule)
    then some access_schedule
    else none

abbrev after_refusal :
    Clock → Buckets → WorkspaceDeviceLink → Request → Option Step → Option AccessDenied × Buckets
after_refusal clock buckets link r (some step) = (some (denied r step 0), buckets)
after_refusal clock buckets link r none =
    limit_rate clock buckets r link.permissions.rate_limit_per_min

-- `EvaluatePermission`, on what `GetLink` and the read of the policy's file come to.
unfoldable pub evaluate_permission :
    Clock
    → Buckets
    → Result LinkError WorkspaceDeviceLink
    → FileRead Policy
    → Request
    → Option AccessDenied × Buckets
evaluate_permission clock buckets (err e) policy_file r =
    (some (denied r link_existence 0), buckets)
evaluate_permission clock buckets (ok link) policy_file r =
    after_refusal clock buckets link r
      (refusal clock (load_policy r.workspace_id policy_file) link r)
