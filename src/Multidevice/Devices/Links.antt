-- ===== src/Multidevice/Devices/Links.antt =====
-- internal/core/multidevice/linker.go: what one operation on a link leaves for the next.
use aps.Base.{ℕ, String, true, false, ◌≡◌, ok, err, ◌==◌, arith, ap}
use aps.Multidevice.Devices.{
  DeviceRole, is_valid_role, WorkspaceDeviceLink, LinkFiles, link_of, already_linked,
  link_not_found, new_link, load_link, save_link, delete_link, attach_device, detach_device,
}

module _ (files : LinkFiles) where
  -- A link that was saved is loaded.
  pub save-load :
      (s s' : files.Files) (link : WorkspaceDeviceLink)
      → save_link files s link ≡ ok s'
      → load_link files s' link.workspace_id link.device_id ≡ ok link
  unfolding save_link load_link
  save-load s s' link h = ap link_of (files.read-write s s' link (ground arith))

  attach_saves :
      (now : ℕ) (s s' : files.Files) (workspace_id device_id : String) (role : DeviceRole)
      (link : WorkspaceDeviceLink)
      → attach_device files now s workspace_id device_id role ≡ ok (link, s')
      → ((workspace_id == "") ≡ false)
        × ((device_id == "") ≡ false)
        × (save_link files s (new_link now workspace_id device_id role) ≡ ok s')
  unfolding attach_device
  attach_saves now s s' w d role link h = ground arith

  -- After an attach the device has the link that the attach returned, with the role's permissions, and
  -- a second attach of the device, with any role, is refused.
  pub attach_twice :
      (now later : ℕ) (s s' : files.Files) (workspace_id device_id : String)
      (role other : DeviceRole) (link : WorkspaceDeviceLink)
      → attach_device files now s workspace_id device_id role ≡ ok (link, s')
      → is_valid_role other ≡ true
      → (load_link files s' workspace_id device_id ≡ ok (new_link now workspace_id device_id role))
        × (attach_device files later s' workspace_id device_id other ≡ err already_linked)
  unfolding attach_device
  attach_twice now later s s' w d role other link h valid =
      let saved = attach_saves now s s' w d role link h in
      let found = save-load s s' (new_link now w d role) saved.2 in
      (found, ground (arith, saved, found))

  -- After a detach the device has no link.
  pub detach-load :
      (s s' : files.Files) (workspace_id device_id : String)
      → detach_device files s workspace_id device_id ≡ ok s'
      → load_link files s' workspace_id device_id ≡ err link_not_found
  unfolding detach_device load_link delete_link
  detach-load s s' w d h = ap link_of (files.read-remove s s' w d (ground arith))
