-- ===== src/Multidevice/Devices.antt =====
-- internal/core/multidevice/types.go, linker.go and the links of storage.go: the devices that are linked to
-- a workspace, their roles and permissions. The files of the links are reached through `os` and
-- `encoding/json`: `LinkFiles` is what the code uses of them. `RateLimitPerMin` is compared to 0 only, so a
-- negative one is 0 here; `DaysOfWeek` is compared to 0, ..., 6 only.
pub mod Links
pub mod Tests
use aps.Base.{
  ℕ, String, Bool, true, false, Option, none, some, List, [], Result, ok, err, ◌==◌, ◌>>=◌, ◌>>◌,
  refuse_if, not, ◌≡◌, if◌then◌else◌, is_ok,
}
use aps.Multidevice.Presence.{PresenceState, linking}

-- `odd` is a text that is none of the constants.
pub data DeviceRole : Type 0 where
  owner collaborator viewer : DeviceRole
  odd : String → DeviceRole

-- `IsValidRole`
abbrev pub is_valid_role : DeviceRole → Bool
is_valid_role (odd s) = false
is_valid_role _ = true

pub record AccessSchedule : Type 0 where
  pub start_time : String
  pub end_time : String
  pub days_of_week : List ℕ
  pub timezone : String

pub record DevicePermissions : Type 0 where
  pub role : DeviceRole
  pub can_read : Bool
  pub can_write : Bool
  pub can_execute : Bool
  pub can_manage : Bool
  pub can_sync : Bool
  pub max_isolation_tier : String
  pub allowed_actions : List String
  pub denied_actions : List String
  pub rate_limit_per_min : ℕ
  pub access_schedule : Option AccessSchedule

-- A record with `Role`, the read and the sync permission, and Go's zero values in the other fields.
abbrev pub reads_and_syncs : DeviceRole → DevicePermissions
reads_and_syncs role = record {
  role = role;
  can_read = true;
  can_write = false;
  can_execute = false;
  can_manage = false;
  can_sync = true;
  max_isolation_tier = "";
  allowed_actions = [];
  denied_actions = [];
  rate_limit_per_min = 0;
  access_schedule = none;
}

-- `PermissionsForRole`
abbrev pub permissions_for_role : DeviceRole → DevicePermissions
permissions_for_role owner = record (reads_and_syncs owner) {
  can_write = true;
  can_execute = true;
  can_manage = true;
}
permissions_for_role collaborator = record (reads_and_syncs collaborator) {
  can_write = true;
  can_execute = true;
}
permissions_for_role viewer = reads_and_syncs viewer
permissions_for_role (odd s) = reads_and_syncs viewer

pub record WorkspaceDeviceLink : Type 0 where
  pub workspace_id : String
  pub device_id : String
  pub linked_at : ℕ
  pub linked_by : String
  pub permissions : DevicePermissions
  pub status : PresenceState
  pub last_event_id : String
  pub last_sync_at : ℕ

-- What a read of a JSON file comes to.
pub data FileRead (A : Type 0) : Type 0 where
  missing unreadable : FileRead A
  parsed : A → FileRead A

pub data FileError : Type 0 where
  io_error : FileError

-- The link files of all workspaces, with the documented behaviour of a write and a removal that succeed:
-- the file holds what was written, or is gone.
pub record LinkFiles : Type 1 where
  pub Files : Type 0
  pub read : Files → String → String → FileRead WorkspaceDeviceLink
  pub write : Files → WorkspaceDeviceLink → Result FileError Files
  pub remove : Files → String → String → Result FileError Files
  pub read-write :
      (s s' : Files) (link : WorkspaceDeviceLink)
      → write s link ≡ ok s'
      → read s' link.workspace_id link.device_id ≡ parsed link
  pub read-remove :
      (s s' : Files) (workspace_id device_id : String)
      → remove s workspace_id device_id ≡ ok s'
      → read s' workspace_id device_id ≡ missing

pub data LinkError : Type 0 where
  workspace_required device_required invalid_role already_linked link_not_found link_unreadable :
      LinkError
  link_io : LinkError

abbrev lifted : {A : Type 0} → Result FileError A → Result LinkError A
lifted (ok a) = ok a
lifted (err e) = err link_io

abbrev link_of : FileRead WorkspaceDeviceLink → Result LinkError WorkspaceDeviceLink
link_of missing = err link_not_found
link_of unreadable = err link_unreadable
link_of (parsed link) = ok link

abbrev pub new_link : ℕ → String → String → DeviceRole → WorkspaceDeviceLink
new_link now workspace_id device_id role = record {
  workspace_id = workspace_id;
  device_id = device_id;
  linked_at = now;
  linked_by = device_id;
  permissions = permissions_for_role role;
  status = linking;
  last_event_id = "";
  last_sync_at = 0;
}

module _ (files : LinkFiles) where
  -- `LoadLink`, and `GetLink`
  unfoldable pub load_link : files.Files → String → String → Result LinkError WorkspaceDeviceLink
  load_link s workspace_id device_id = link_of (files.read s workspace_id device_id)

  -- `SaveLink`
  unfoldable pub save_link : files.Files → WorkspaceDeviceLink → Result LinkError files.Files
  save_link s link = do
    refuse_if (link.workspace_id == "") workspace_required
    refuse_if (link.device_id == "") device_required
    lifted (files.write s link)

  -- `DeleteLink`: a file that is not there is an error too.
  unfoldable pub delete_link : files.Files → String → String → Result LinkError files.Files
  delete_link s workspace_id device_id = lifted (files.remove s workspace_id device_id)

  -- `AttachDevice`, with the new link and the files after it.
  unfoldable pub attach_device :
      ℕ
      → files.Files
      → String
      → String
      → DeviceRole
      → Result LinkError (WorkspaceDeviceLink × files.Files)
  attach_device now s workspace_id device_id role = do
    refuse_if (workspace_id == "") workspace_required
    refuse_if (device_id == "") device_required
    refuse_if (not (is_valid_role role)) invalid_role
    refuse_if (is_ok (load_link s workspace_id device_id)) already_linked
    let link = new_link now workspace_id device_id role
    s' ← save_link s link
    ok (link, s')

  -- `DetachDevice`
  unfoldable pub detach_device : files.Files → String → String → Result LinkError files.Files
  detach_device s workspace_id device_id = do
    refuse_if (workspace_id == "") workspace_required
    refuse_if (device_id == "") device_required
    link ← load_link s workspace_id device_id
    delete_link s workspace_id device_id

  -- `UpdatePermissions`
  unfoldable pub update_permissions :
      files.Files → String → String → DevicePermissions → Result LinkError files.Files
  update_permissions s workspace_id device_id perms = do
    link ← load_link s workspace_id device_id
    save_link s (record link { permissions = perms })

  -- `SetRole`
  unfoldable pub set_role :
      files.Files → String → String → DeviceRole → Result LinkError files.Files
  set_role s workspace_id device_id role = do
    refuse_if (not (is_valid_role role)) invalid_role
    link ← load_link s workspace_id device_id
    save_link s (record link { permissions = permissions_for_role role })
