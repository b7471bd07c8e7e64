-- ===== src/Multidevice/Access/Grants.antt =====
-- internal/core/multidevice: the linker and the access controller together. What a role that was set
-- with `SetRole` grants in `EvaluatePermission`.
use aps.Base.{
  String, Bool, true, ◌≡◌, ◌≢◌, ◌↔◌, not, ◌||◌, none, List, [], ◌∷◌, IsIn, at_head, in_tail, Result,
  ok, ◌==◌, arith, sym, subst,
}
use aps.Multidevice.Presence.{unlinked}
use aps.Multidevice.RateLimit.{Buckets}
use aps.Multidevice.Devices.{
  DeviceRole, owner, collaborator, is_valid_role, permissions_for_role, WorkspaceDeviceLink,
  LinkError, missing, LinkFiles, load_link, set_role,
}
use aps.Multidevice.Devices.Links.{save-load}
use aps.Multidevice.Access.{
  Clock, Request, evaluate_permission, refusal, limit_rate, is_device_allowed, load_policy,
  check_role_permission,
}

-- The table of the roles: which of the five actions is granted.
abbrev pub grants : DeviceRole → String → Bool
grants owner action = true
grants collaborator action = not (action == "manage")
grants _ action = (action == "read") || (action == "sync")

abbrev pub known_actions : List String
known_actions = "read" ∷ "write" ∷ "execute" ∷ "manage" ∷ "sync" ∷ []

check_role_permission-grants :
    (role : DeviceRole) (action : String)
    → is_valid_role role ≡ true
    → IsIn action known_actions
    → check_role_permission (permissions_for_role role) action ≡ grants role action
unfolding check_role_permission
check_role_permission-grants role _ valid at_head = ground arith
check_role_permission-grants role _ valid (in_tail at_head) = ground arith
check_role_permission-grants role _ valid (in_tail (in_tail at_head)) = ground arith
check_role_permission-grants role _ valid (in_tail (in_tail (in_tail at_head))) = ground arith
check_role_permission-grants role _ valid (in_tail (in_tail (in_tail (in_tail at_head)))) =
    ground arith
check_role_permission-grants role _ valid (in_tail (in_tail (in_tail (in_tail (in_tail h))))) =
    elim h [ ]

-- A device with the bare permissions of a role is asked for its role only.
role_decides :
    (clock : Clock) (buckets : Buckets) (link : WorkspaceDeviceLink) (role : DeviceRole)
    (r : Request)
    → link.status ≢ unlinked
    → ((evaluate_permission clock buckets
          (ok (record link { permissions = permissions_for_role role }))
          missing
          r).0
        ≡ none)
      ↔ (check_role_permission (permissions_for_role role) r.action ≡ true)
unfolding evaluate_permission refusal limit_rate is_device_allowed load_policy
role_decides clock buckets link role r status = ground arith

-- The device of a link asks for an action in its workspace.
abbrev pub request_of : WorkspaceDeviceLink → String → String → Request
request_of link action resource = record {
  workspace_id = link.workspace_id;
  device_id = link.device_id;
  action = action;
  resource = resource;
}

module _ (files : LinkFiles) where
  -- The link that `SetRole` writes.
  set_role-load :
      (s s' : files.Files) (link : WorkspaceDeviceLink) (role : DeviceRole)
      → load_link files s link.workspace_id link.device_id ≡ ok link
      → set_role files s link.workspace_id link.device_id role ≡ ok s'
      → load_link files s' link.workspace_id link.device_id
        ≡ ok (record link { permissions = permissions_for_role role })
  unfolding set_role
  set_role-load s s' link role found h =
      save-load files s s' (record link { permissions = permissions_for_role role })
        (ground (arith, found, h))

  set_role-valid :
      (s s' : files.Files) (link : WorkspaceDeviceLink) (role : DeviceRole)
      → set_role files s link.workspace_id link.device_id role ≡ ok s'
      → is_valid_role role ≡ true
  unfolding set_role
  set_role-valid s s' link role h = ground (arith, h)

  -- On a device whose link is filed under its own IDs, after a role was set: of the five known actions
  -- exactly those that the role grants pass, if the device is not unlinked and the workspace has no policy
  -- file. Owners may do all five, collaborators all but manage, viewers read and sync.
  pub role_grants :
      (clock : Clock) (buckets : Buckets) (s s' : files.Files) (link : WorkspaceDeviceLink)
      (role : DeviceRole) (action resource : String)
      → load_link files s link.workspace_id link.device_id ≡ ok link
      → link.status ≢ unlinked
      → set_role files s link.workspace_id link.device_id role ≡ ok s'
      → IsIn action known_actions
      → ((evaluate_permission clock buckets
            (load_link files s' link.workspace_id link.device_id)
            missing
            (request_of link action resource)).0
          ≡ none)
        ↔ (grants role action ≡ true)
  role_grants clock buckets s s' link role action resource found status h known =
      let loaded = set_role-load s s' link role found h in
      let decides = role_decides clock buckets link role (request_of link action resource) status in
      let table =
        check_role_permission-grants role action (set_role-valid s s' link role h) known in
      subst
        (λ (l : Result LinkError WorkspaceDeviceLink).
          ((evaluate_permission clock buckets l missing (request_of link action resource)).0 ≡ none)
          ↔ (grants role action ≡ true))
        (sym loaded) (ground (arith, decides, table))
