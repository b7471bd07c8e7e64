-- ===== src/Multidevice/Conflicts/Tests.antt =====
-- internal/core/multidevice: two devices that write to one resource, and the theorems at them.
use aps.Base.{
  ℕ, String, false, ◌≡◌, ◌↔◌, refl, Option, none, some, [], ◌∷◌, IsIn, at_head, in_tail, ok, err,
  All, Dict, lookup, insert, lookup-insert, eq_refl, eq_iff, arith, ◌==◌,
}
use aps.Multidevice.Conflicts.{
  text, WorkspaceEvent, extract_resource, query_by_resource, concurrent_write, pending, Conflict,
  ConflictFiles, already_resolved, auto_resolved, resolution_by, is_overlapping, conflicts_with,
  classify_conflict, detect, beats, winner_of, resolve_lww, decide, resolve_conflict,
  settled_by_hand, resolve_manually,
}
use aps.Multidevice.Conflicts.Winner.{winners_agree, HasWinner, resolve_lww_latest}
use aps.Multidevice.Conflicts.Detection.{Clashes, detect-none_iff}
use aps.Multidevice.Conflicts.Resolution.{
  HasStatusAfter, resolve_conflict_stores, resolve_manually_once,
}

abbrev pub write_of : String → ℕ → ℕ → WorkspaceEvent
write_of device_id timestamp version = record {
  id = device_id;
  workspace_id = "w";
  device_id = device_id;
  timestamp = timestamp;
  event_type = "profile.updated";
  version = version;
  payload = ("resource", text "p1") ∷ [];
  caused_by = "";
  signature = "";
}

abbrev desk : WorkspaceEvent
desk = write_of "desk" 10 1

abbrev phone : WorkspaceEvent
phone = write_of "phone" 10 1

phone_wins : winner_of desk (phone ∷ []) ≡ phone
unfolding winner_of beats
phone_wins = refl

swapped : (e : WorkspaceEvent) → IsIn e (desk ∷ phone ∷ []) ↔ IsIn e (phone ∷ desk ∷ [])
swapped e = (there desk phone, there phone desk)
  where
    there : (a b : WorkspaceEvent) → IsIn e (a ∷ b ∷ []) → IsIn e (b ∷ a ∷ [])
    there a b at_head = in_tail at_head
    there a b (in_tail at_head) = at_head
    there a b (in_tail (in_tail h)) = elim h [ ]

winners_agree_example :
    ((winner_of desk (phone ∷ [])).timestamp ≡ (winner_of phone (desk ∷ [])).timestamp)
    × ((winner_of desk (phone ∷ [])).device_id ≡ (winner_of phone (desk ∷ [])).device_id)
winners_agree_example = winners_agree desk phone (phone ∷ []) (desk ∷ []) swapped

abbrev clash : Conflict
clash = record {
  id = "c1";
  workspace_id = "w";
  conflict_type = concurrent_write;
  status = pending;
  resource = "p1";
  events = desk ∷ phone ∷ [];
  detected_at = 12;
  resolved_at = none;
  resolution = none;
}

resolve_lww_latest_at :
    (later : Conflict) × ((resolve_lww 20 clash ≡ ok later) × HasWinner (desk ∷ phone ∷ []) later)
resolve_lww_latest_at = resolve_lww_latest 20 clash (ground arith)

phone_clashes : detect 12 "c1" (some (desk ∷ [])) phone ≡ ok (some clash)
unfolding detect extract_resource query_by_resource conflicts_with is_overlapping classify_conflict
    lookup
phone_clashes = refl

phone_named : (extract_resource phone == "") ≡ false
unfolding extract_resource lookup
phone_named = refl

detect-none_iff_example :
    (detect 12 "c1" (some (desk ∷ [])) phone ≡ ok none) ↔ All (λ e. ¬ (Clashes phone e)) (desk ∷ [])
detect-none_iff_example =
    detect-none_iff 12 "c1" (desk ∷ []) phone
      (ground (arith, eq_iff (extract_resource phone) "", phone_named))

unfoldable pub load_file : Dict Conflict → String → Option Conflict
load_file s id = lookup id s

unfoldable pub save_file : Dict Conflict → Conflict → Option (Dict Conflict)
save_file s c = some (insert c.id c s)

pub load-save_file :
    (s s' : Dict Conflict) (c : Conflict) → save_file s c ≡ some s' → load_file s' c.id ≡ some c
unfolding save_file load_file
load-save_file s s' c h = ground (arith, h, lookup-insert c.id c.id c s, eq_refl c.id)

abbrev pub memory : ConflictFiles
memory = record {
  Files = Dict Conflict;
  load = load_file;
  save = save_file;
  load-save = load-save_file;
}

abbrev closed : Conflict
closed = settled_by_hand memory 30 "mine" [] clash

clash_settled :
    resolve_manually memory 30 (("c1", clash) ∷ []) "c1" "mine" [] ≡ ok (("c1", closed) ∷ [])
unfolding resolve_manually load_file save_file lookup insert
clash_settled = refl

resolve_manually_once_at :
    resolve_manually memory 40 (("c1", closed) ∷ []) "c1" "theirs" [] ≡ err already_resolved
resolve_manually_once_at =
    resolve_manually_once memory 30 40 (("c1", clash) ∷ []) (("c1", closed) ∷ []) clash "mine"
      "theirs" [] [] (unfold load_file lookup in refl) clash_settled

abbrev won : Conflict
won = record clash {
  status = auto_resolved;
  resolved_at = some 20;
  resolution = some (resolution_by phone);
}

clash_resolved : resolve_conflict memory 20 [] clash ≡ ok (("c1", won) ∷ [])
unfolding resolve_conflict decide resolve_lww winner_of beats save_file insert
clash_resolved = refl

resolve_conflict_stores_at :
    (later : Conflict) × ((load_file (("c1", won) ∷ []) "c1" ≡ some later)
      × HasStatusAfter concurrent_write later)
resolve_conflict_stores_at =
    resolve_conflict_stores memory 20 [] (("c1", won) ∷ []) clash clash_resolved
