-- ===== src/Multidevice/Sync.antt =====
-- internal/core/multidevice/sync_manager.go: a device that reconnects sends the events of its offline queue. Each is
-- checked for a conflict, resolved and stored. `Outside` is what is not decided by the code: the time and the new
-- ID of each turn, and which writes fail. The duration of a sync is left out.
pub mod Settlement
pub mod Delivery
pub mod Tests
use aps.Base.{
  ℕ, zero, suc, ◌+◌, String, Bool, true, false, Option, none, some, List, [], ◌∷◌, ◌++◌, Result, ok,
  err, leb, length, if◌then◌else◌, ◌>>=◌,
}
use aps.Multidevice.Conflicts.{
  WorkspaceEvent, ConflictStatus, auto_resolved, manual, Conflict, ConflictError, ConflictFiles,
  detect, decide, saved,
}
use aps.Multidevice.Devices.{missing}
use aps.Multidevice.Events.{
  EventFiles, Redaction, StoreError, Faults, store, read_all, get_range, get_latest_version,
  QueueFile, QueueError, dequeue,
}

pub record Outside : Type 0 where
  pub now : ℕ → ℕ
  pub fresh_id : ℕ → String
  pub faults : ℕ → Faults
  pub remove_fails : Bool

pub record SyncResult : Type 0 where
  pub events_synced : ℕ
  pub events_processed : ℕ
  pub conflicts_detected : ℕ
  pub conflicts : ℕ
  pub auto : ℕ
  pub manual_pending : ℕ
  pub latest_version : ℕ

abbrev pub up_to_date : ℕ → SyncResult
up_to_date latest = record {
  events_synced = 0;
  events_processed = 0;
  conflicts_detected = 0;
  conflicts = 0;
  auto = 0;
  manual_pending = 0;
  latest_version = latest;
}

pub data SyncError : Type 0 where
  conflict_failed : ConflictError → SyncError
  store_failed : StoreError → SyncError
  queue_failed : QueueError → SyncError

abbrev pub count_status : ConflictStatus → SyncResult → SyncResult
count_status auto_resolved r = record r { auto = r.auto + 1 }
count_status manual r = record r { manual_pending = r.manual_pending + 1 }
count_status _ r = r

abbrev pub counted : Conflict → SyncResult → SyncResult
counted later r =
    count_status later.status (record r { conflicts_detected = r.conflicts_detected + 1 })

-- The result before the loop.
abbrev pub started : ℕ → ℕ → SyncResult
started total latest = record (up_to_date latest) {
  events_synced = total;
  events_processed = total;
}

abbrev pub latest_or : ℕ → Result StoreError ℕ → ℕ
latest_or n (ok latest) = latest
latest_or n (err e) = n

module _ (redaction : Redaction) (conflict_files : ConflictFiles) (outside : Outside) where
  open conflict_files use {Files, save}

  -- The disk, and the result so far.
  pub record SyncState : Type 0 where
    pub events : EventFiles
    pub conflicts : Files
    pub result : SyncResult

  -- `ResolveConflict` on the conflict that was found, with the count of its status
  abbrev pub with_decided : SyncState → Result ConflictError Conflict → Result SyncError SyncState
  with_decided s (err e) = err (conflict_failed e)
  with_decided s (ok later) = elim (saved (save s.conflicts later)) [
    | err e ↦ err (conflict_failed e)
    | ok files ↦ ok (record s { conflicts = files; result = counted later s.result })
  ]

  abbrev pub with_detected :
      ℕ → SyncState → Result ConflictError (Option Conflict) → Result SyncError SyncState
  with_detected now s (err e) = err (conflict_failed e)
  with_detected now s (ok none) = ok s
  with_detected now s (ok (some conflict)) =
      with_decided s (decide now conflict conflict.conflict_type)

  -- The detection and the resolution for one event.
  unfoldable pub settle_event : ℕ → SyncState → WorkspaceEvent → Result SyncError SyncState
  settle_event turn s event =
      with_detected (outside.now turn) s
        (detect (outside.now turn) (outside.fresh_id turn) (read_all redaction s.events) event)

  abbrev pub stored_in : SyncState → Option StoreError × EventFiles → Option SyncError × SyncState
  stored_in s (none, files) = (none, record s { events = files })
  stored_in s (some e, files) = (some (store_failed e), record s { events = files })

  abbrev pub store_after :
      ℕ → SyncState → WorkspaceEvent → Result SyncError SyncState → Option SyncError × SyncState
  store_after turn s event (err e) = (some e, s)
  store_after turn s event (ok s') =
      stored_in s' (store redaction (outside.faults turn) s'.events event)

  -- One turn of the loop: the error that ends it, and the state after it.
  unfoldable pub sync_event : ℕ → SyncState → WorkspaceEvent → Option SyncError × SyncState
  sync_event turn s event = store_after turn s event (settle_event turn s event)

  abbrev pub go_on :
      (SyncState → Option SyncError × SyncState)
      → Option SyncError × SyncState
      → Option SyncError × SyncState
  go_on next (none, s) = next s
  go_on next (some e, s) = (some e, s)

  -- The loop over the offline events.
  unfoldable pub sync_events : ℕ → SyncState → List WorkspaceEvent → Option SyncError × SyncState
  sync_events turn s [] = (none, s)
  sync_events turn s (event ∷ rest) =
      go_on (λ s'. sync_events (suc turn) s' rest) (sync_event turn s event)

  -- The end of a sync: the totals and the version that is the latest now.
  abbrev pub finished : SyncState → SyncResult
  finished s = record (s.result) {
    conflicts = s.result.conflicts_detected;
    latest_version = latest_or s.result.latest_version (get_latest_version s.events);
  }

  -- What a call returns, the queue file and the state after it.
  pub record Synced : Type 0 where
    pub outcome : Result SyncError SyncResult
    pub queue : QueueFile
    pub state : SyncState

  abbrev pub ended : QueueFile → Option SyncError × SyncState → Synced
  ended queue (none, s) = record { outcome = ok (finished s); queue = queue; state = s }
  ended queue (some e, s) = record { outcome = err e; queue = queue; state = s }

  abbrev pub delivered :
      ℕ
      → List WorkspaceEvent
      → SyncState
      → Result QueueError (List WorkspaceEvent) × QueueFile
      → Synced
  delivered latest missed s (err e, queue) = record {
    outcome = err (queue_failed e);
    queue = queue;
    state = s;
  }
  delivered latest missed s (ok offline, queue) = ended queue (
      sync_events 0 (record s { result = started (length missed + length offline) latest }) offline)

  abbrev pub with_missed :
      ℕ → QueueFile → SyncState → Result StoreError (List WorkspaceEvent) → Synced
  with_missed latest queue s (err e) = record {
    outcome = err (store_failed e);
    queue = queue;
    state = s;
  }
  with_missed latest queue s (ok missed) =
      delivered latest missed s (dequeue redaction outside.remove_fails queue)

  abbrev pub with_latest : ℕ → QueueFile → SyncState → Result StoreError ℕ → Synced
  with_latest last queue s (err e) = record {
    outcome = err (store_failed e);
    queue = queue;
    state = s;
  }
  with_latest last queue s (ok latest) =
      if leb latest last
      then record { outcome = ok (up_to_date latest); queue = queue; state = s }
      else with_missed latest queue s (get_range redaction s.events (last + 1) latest)

  -- `InitiateSync`
  unfoldable pub initiate_sync : ℕ → QueueFile → SyncState → Synced
  initiate_sync last queue s = with_latest last queue s (get_latest_version s.events)

  abbrev pub attributed : String → String → List WorkspaceEvent → List WorkspaceEvent
  attributed device_id workspace_id [] = []
  attributed device_id workspace_id (e ∷ es) =
      record e { device_id = device_id; workspace_id = workspace_id }
      ∷ attributed device_id workspace_id es

  -- `ProcessOfflineEvents`
  unfoldable pub process_offline_events :
      String → String → SyncState → List WorkspaceEvent → Result SyncError SyncResult × SyncState
  process_offline_events device_id workspace_id s events =
      let after = ended missing (
        sync_events 0 (record s { result = started (length events) 0 })
          (attributed device_id workspace_id events)) in
      (after.outcome, after.state)

-- `GetMissedEvents`
unfoldable pub get_missed_events :
    Redaction → EventFiles → ℕ → Result StoreError (List WorkspaceEvent)
get_missed_events redaction events since = get_latest_version events >>= λ latest.
    if leb latest since then ok [] else get_range redaction events (since + 1) latest
