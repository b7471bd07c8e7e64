-- ===== src/Multidevice/Sync/Tests.antt =====
-- internal/core/multidevice/sync_manager.go: a phone that was offline for two events, and the theorems at it.
use aps.Base.{◌+◌, false, ◌≡◌, refl, none, List, [], ◌∷◌, ok, err, arith, lookup, insert}
use aps.Multidevice.Devices.{parsed}
use aps.Multidevice.Conflicts.{
  WorkspaceEvent, extract_resource, query_by_resource, is_overlapping, conflicts_with,
  classify_conflict, detect, beats, winner_of, resolve_lww, decide,
}
use aps.Multidevice.Conflicts.Tests.{memory, save_file}
use aps.Multidevice.Events.{
  EventFiles, append_line, scan_lines, read_all, append_failed, load_index, append_event, store,
  get_range, get_latest_version, peek, dequeue,
}
use aps.Multidevice.Events.Lines.{AllReadable, numbered}
use aps.Multidevice.Events.Log.{index_at, Represents}
use aps.Multidevice.Events.Tests.{
  plain, no_fault, refused_line, refused_line-IsClean, queue_of, event_of,
}
use aps.Multidevice.Sync.{
  Outside, up_to_date, SyncResult, store_failed, SyncState, settle_event, sync_event, sync_events,
  initiate_sync,
}
use aps.Multidevice.Sync.Delivery.{Arrived, Lost, initiate_sync_delivers, initiate_sync_loses}

abbrev calm : Outside
calm = record {
  now = λ n. 100 + n;
  fresh_id = λ n. "c";
  faults = λ n. no_fault;
  remove_fails = false;
}

-- Every write to the log fails.
abbrev full_disk : Outside
full_disk = record calm { faults = λ n. refused_line }

abbrev history : List WorkspaceEvent
history = event_of "desk" 1 ∷ []

abbrev offline : List WorkspaceEvent
offline = event_of "phone" 2 ∷ event_of "phone" 3 ∷ []

abbrev files : EventFiles
files = record {
  index = parsed (index_at 1);
  log = parsed (record { lines = numbered plain 0 history; cut = none });
}

abbrev start : (outside : Outside) → SyncState plain memory outside
start outside = record {
  events = files;
  conflicts = [];
  result = record {
    events_synced = 0;
    events_processed = 0;
    conflicts_detected = 0;
    conflicts = 0;
    auto = 0;
    manual_pending = 0;
    latest_version = 0;
  };
}

abbrev both_sent : SyncResult
both_sent = record {
  events_synced = 3;
  events_processed = 3;
  conflicts_detected = 2;
  conflicts = 2;
  auto = 2;
  manual_pending = 0;
  latest_version = 3;
}

phone_syncs :
    (initiate_sync plain memory calm 0 (queue_of offline) (start calm)).outcome ≡ ok both_sent
unfolding initiate_sync get_latest_version load_index get_range dequeue peek sync_events sync_event
    settle_event detect extract_resource query_by_resource conflicts_with is_overlapping
    classify_conflict decide resolve_lww winner_of beats save_file store append_event append_line
    read_all scan_lines lookup insert
phone_syncs = refl

history_readable : AllReadable plain 0 history
history_readable = (omega arith, (record (event_of "desk" 1) { version = 1 }, refl), tt)

files_represent : Represents plain files history
unfolding load_index
files_represent = record { lines = refl; index = refl }

initiate_sync_delivers_example :
    Arrived plain memory calm 0
      (queue_of offline)
      (start calm)
      history
      offline
      (initiate_sync plain memory calm 0 (queue_of offline) (start calm))
      both_sent
initiate_sync_delivers_example =
    initiate_sync_delivers plain memory calm 0 (queue_of offline) (start calm) history offline
      both_sent refl history_readable files_represent (omega arith) (unfold peek scan_lines in refl)
      phone_syncs

phone_fails :
    (initiate_sync plain memory full_disk 0 (queue_of offline) (start full_disk)).outcome
    ≡ err (store_failed append_failed)
unfolding initiate_sync get_latest_version load_index get_range dequeue peek sync_events sync_event
    settle_event detect extract_resource query_by_resource conflicts_with is_overlapping
    classify_conflict decide resolve_lww winner_of beats save_file store append_event append_line
    read_all scan_lines lookup insert
phone_fails = refl

initiate_sync_loses_example :
    Lost plain memory full_disk 0
      (queue_of offline)
      (start full_disk)
      history
      offline
      (initiate_sync plain memory full_disk 0 (queue_of offline) (start full_disk))
initiate_sync_loses_example =
    initiate_sync_loses plain memory full_disk 0 (queue_of offline) (start full_disk) history
      offline (store_failed append_failed) (λ n. refused_line-IsClean) refl history_readable
      files_represent (omega arith) (unfold peek scan_lines in refl) phone_fails

-- A device that has seen the latest version keeps its offline events in the queue.
current_keeps_queue :
    initiate_sync plain memory calm 1 (queue_of offline) (start calm)
    ≡ record { outcome = ok (up_to_date 1); queue = queue_of offline; state = start calm }
unfolding initiate_sync get_latest_version load_index
current_keeps_queue = refl
