-- ===== src/Multidevice/Access/Tests.antt =====
-- internal/core/multidevice/access_control.go: the theorems at a device and its requests.
use aps.Base.{
  String, true, ◌≡◌, ◌↔◌, refl, none, some, [], ◌∷◌, ok, arith, at_head, in_tail, lookup,
}
use aps.Multidevice.RateLimit.{consume, get_bucket, refill, take_token, rate_limit_key}
use aps.Multidevice.Devices.{
  collaborator, viewer, AccessSchedule, WorkspaceDeviceLink, missing, parsed, load_link, save_link,
  set_role, permissions_for_role,
}
use aps.Multidevice.Devices.Tests.{memory, phone, read_file, write_file, to_read, is_at}
use aps.Multidevice.Access.{
  Policy, deny_list, load_policy, is_device_allowed, Clock, Request, check_role_permission,
  is_within_schedule, role_permission, denied, limit_rate, refusal, evaluate_permission,
}
use aps.Multidevice.Access.Permitted.{Permitted, evaluate_permission_iff, denied_takes_no_token}
use aps.Multidevice.Access.Grants.{grants, request_of, role_grants}

-- Tuesday at half past ten, in every zone.
abbrev clock : Clock
clock = record {
  now = 7;
  local = record { weekday = 2; hour_minute = "10:30" };
  in_zone = λ _. none;
}

abbrev office_hours : AccessSchedule
office_hours = record {
  start_time = "09:00";
  end_time = "17:00";
  days_of_week = 0 ∷ 1 ∷ [];
  timezone = "";
}

abbrev desk : WorkspaceDeviceLink
desk = record (phone collaborator) {
  permissions = record (permissions_for_role collaborator) {
    rate_limit_per_min = 1;
    access_schedule = some office_hours;
  };
}

abbrev ask : String → Request
ask action = request_of (phone viewer) action "file"

abbrev policy : Policy
policy = record {
  workspace_id = "w";
  mode = deny_list;
  allow_devices = [];
  deny_devices = "tv" ∷ [];
}

desk_writes : (evaluate_permission clock [] (ok desk) (parsed policy) (ask "write")).0 ≡ none
unfolding evaluate_permission refusal load_policy is_device_allowed check_role_permission
    is_within_schedule limit_rate consume get_bucket refill take_token rate_limit_key lookup
desk_writes = refl

desk_manages :
    (evaluate_permission clock [] (ok desk) (parsed policy) (ask "manage")).0
    ≡ some (denied (ask "manage") role_permission 0)
unfolding evaluate_permission refusal load_policy is_device_allowed check_role_permission
desk_manages = refl

evaluate_permission_iff_example :
    ((evaluate_permission clock [] (ok desk) (parsed policy) (ask "write")).0 ≡ none)
    ↔ Permitted clock [] (ok desk) (load_policy "w" (parsed policy)) (ask "write")
evaluate_permission_iff_example =
    evaluate_permission_iff clock [] (ok desk) (parsed policy) (ask "write")

denied_takes_no_token_at :
    (evaluate_permission clock [] (ok desk) (parsed policy) (ask "manage")).1 ≡ []
denied_takes_no_token_at =
    denied_takes_no_token clock [] (ok desk) (parsed policy) (ask "manage")
      (denied (ask "manage") role_permission 0) desk_manages (ground arith)

phone_set :
    set_role memory (phone viewer ∷ []) "w" "phone" collaborator
    ≡ ok (phone collaborator ∷ phone viewer ∷ [])
unfolding set_role save_link load_link read_file to_read write_file is_at
phone_set = refl

role_grants_at :
    ((evaluate_permission clock []
        (load_link memory (phone collaborator ∷ phone viewer ∷ []) "w" "phone")
        missing
        (request_of (phone viewer) "manage" "file")).0
      ≡ none)
    ↔ (grants collaborator "manage" ≡ true)
role_grants_at =
    role_grants memory clock [] (phone viewer ∷ []) (phone collaborator ∷ phone viewer ∷ [])
      (phone viewer) collaborator "manage" "file" (unfold load_link read_file to_read is_at in refl)
      (ground arith) phone_set (in_tail (in_tail (in_tail at_head)))
