-- ===== src/Multidevice/Devices/Tests.antt =====
-- Link files in memory, and the theorems of the linker at them.
use aps.Base.{
  String, Bool, not, ◌&&◌, ◌≡◌, refl, Option, none, some, List, [], ◌∷◌, Result, ok, err, find,
  keep, arith, eq_refl, ◌==◌,
}
use aps.Multidevice.Devices.{
  DeviceRole, owner, viewer, WorkspaceDeviceLink, FileRead, missing, parsed, FileError, LinkFiles,
  already_linked, link_not_found, new_link, load_link, save_link, delete_link, attach_device,
  detach_device,
}
use aps.Multidevice.Devices.Links.{attach_twice, detach-load}

unfoldable pub is_at : String → String → WorkspaceDeviceLink → Bool
is_at w d link = (link.workspace_id == w) && (link.device_id == d)

unfoldable pub to_read : Option WorkspaceDeviceLink → FileRead WorkspaceDeviceLink
to_read none = missing
to_read (some link) = parsed link

unfoldable pub read_file : List WorkspaceDeviceLink → String → String → FileRead WorkspaceDeviceLink
unfolding to_read
read_file s w d = to_read (find (is_at w d) s)

unfoldable pub write_file :
    List WorkspaceDeviceLink → WorkspaceDeviceLink → Result FileError (List WorkspaceDeviceLink)
write_file s link = ok (link ∷ s)

unfoldable pub remove_file :
    List WorkspaceDeviceLink → String → String → Result FileError (List WorkspaceDeviceLink)
unfolding is_at
remove_file s w d = ok (keep (λ l. not (is_at w d l)) s)

pub read-write_file :
    (s s' : List WorkspaceDeviceLink) (link : WorkspaceDeviceLink)
    → write_file s link ≡ ok s'
    → read_file s' link.workspace_id link.device_id ≡ parsed link
unfolding write_file read_file to_read is_at
read-write_file s s' link h = ground (arith, h, eq_refl link.workspace_id, eq_refl link.device_id)

find-keep-not :
    (p : WorkspaceDeviceLink → Bool) (s : List WorkspaceDeviceLink)
    → find p (keep (λ l. not (p l)) s) ≡ none
find-keep-not p [] = refl
find-keep-not p (x ∷ xs) = ground (arith, find-keep-not p xs)

pub read-remove_file :
    (s s' : List WorkspaceDeviceLink) (w d : String)
    → remove_file s w d ≡ ok s'
    → read_file s' w d ≡ missing
unfolding remove_file read_file to_read
read-remove_file s s' w d h = ground (arith, h, find-keep-not (is_at w d) s)

abbrev pub memory : LinkFiles
memory = record {
  Files = List WorkspaceDeviceLink;
  read = read_file;
  write = write_file;
  remove = remove_file;
  read-write = read-write_file;
  read-remove = read-remove_file;
}

abbrev pub phone : DeviceRole → WorkspaceDeviceLink
phone role = new_link 1 "w" "phone" role

phone_attached : attach_device memory 1 [] "w" "phone" viewer ≡ ok (phone viewer, phone viewer ∷ [])
unfolding attach_device save_link load_link read_file to_read write_file is_at
phone_attached = refl

attach_twice_at :
    (load_link memory (phone viewer ∷ []) "w" "phone" ≡ ok (phone viewer))
    × (attach_device memory 5 (phone viewer ∷ []) "w" "phone" owner ≡ err already_linked)
attach_twice_at =
    attach_twice memory 1 5 [] (phone viewer ∷ []) "w" "phone" viewer owner (phone viewer)
      phone_attached refl

phone_detached : detach_device memory (phone viewer ∷ []) "w" "phone" ≡ ok []
unfolding detach_device delete_link load_link remove_file read_file to_read is_at
phone_detached = refl

detached_is_gone : load_link memory [] "w" "phone" ≡ err link_not_found
detached_is_gone = detach-load memory (phone viewer ∷ []) [] "w" "phone" phone_detached
