-- ===== src/Multidevice/Events.antt =====
-- internal/core/multidevice/event_store.go and offline_queue.go: the log of a workspace's events with its index, and
-- the queue of a device that is offline. A file of lines is missing, unreadable, or has its lines and perhaps the
-- part of a line that was cut. A write may fail, as the faults of a call say: nothing is written, or a part of a
-- line, or an index that is truncated (`os.WriteFile` truncates before it writes) or whole.
pub mod Lines
pub mod Log
pub mod Tests
use aps.Base.{
  ℕ, ◌+◌, String, Bool, true, false, ◌&&◌, Option, none, some, List, [], ◌∷◌, ◌++◌, Result, ok, err,
  keep, find, ltb, leb, ◌==◌, if◌then◌else◌, ◌≡◌,
}
use aps.Multidevice.Devices.{FileRead, missing, unreadable, parsed}
use aps.Multidevice.Conflicts.{WorkspaceEvent}

pub record EventIndex : Type 0 where
  pub latest_version : ℕ
  pub event_count : ℕ

-- A line of a file: its bytes, and the event that a read of it gives where it parses.
pub record LogLine : Type 0 where
  pub size : ℕ
  pub event : Option WorkspaceEvent

-- `cut` is a last line without its end.
pub record LogFile : Type 0 where
  pub lines : List LogLine
  pub cut : Option LogLine

-- The directory of a log: `index.json` and `events.jsonl`.
pub record EventFiles : Type 0 where
  pub index : FileRead EventIndex
  pub log : FileRead LogFile

-- The redacting writer and the scanner of the Go library. `line_of` is the line of an event after the redaction, which
-- may change texts and may leave a line that does not parse; one that parses has the event's version. A line that is
-- written after one that was cut continues it. A scan fails at a line with more bytes than the limit.
pub record Redaction : Type 0 where
  pub line_of : WorkspaceEvent → LogLine
  pub joined : LogLine → LogLine → LogLine
  pub log_limit : ℕ
  pub queue_limit : ℕ
  pub version-line_of : (e r : WorkspaceEvent) → (line_of e).event ≡ some r → r.version ≡ e.version

pub data StoreError : Type 0 where
  bad_index append_failed index_failed bad_log event_not_found : StoreError

-- What the append of a line does: the whole line, nothing, or a part of it.
pub data AppendFault : Type 0 where
  line_written line_refused : AppendFault
  line_cut : LogLine → AppendFault

-- What `os.WriteFile` of the index does: all, nothing, a file that does not parse, or all with an error at its closing.
pub data IndexFault : Type 0 where
  index_written index_kept index_cut index_late : IndexFault

pub record Faults : Type 0 where
  pub append : AppendFault
  pub index : IndexFault

abbrev pub after_cut : Redaction → LogFile → LogLine → LogLine
after_cut redaction file line = elim file.cut [ none ↦ line | some c ↦ redaction.joined c line ]

-- A file that was opened for appending, with the line.
abbrev pub with_line : Redaction → FileRead LogFile → LogLine → FileRead LogFile
with_line redaction unreadable line = unreadable
with_line redaction missing line = parsed (record { lines = line ∷ []; cut = none })
with_line redaction (parsed file) line =
    parsed (record { lines = file.lines ++ after_cut redaction file line ∷ []; cut = none })

-- The same with a part of the line only.
abbrev pub with_part : Redaction → FileRead LogFile → LogLine → FileRead LogFile
with_part redaction unreadable part = unreadable
with_part redaction missing part = parsed (record { lines = []; cut = some part })
with_part redaction (parsed file) part =
    parsed (record { lines = file.lines; cut = some (after_cut redaction file part) })

-- The append of a line: whether it reports no error, and the file.
unfoldable pub append_line :
    Redaction → AppendFault → FileRead LogFile → LogLine → Bool × FileRead LogFile
append_line redaction line_written file line = (true, with_line redaction file line)
append_line redaction line_refused file line = (false, file)
append_line redaction (line_cut part) file line = (false, with_part redaction file part)

-- The loop of the scanner: the events of the lines that parse, or an error.
unfoldable pub scan_lines : ℕ → List LogLine → Option (List WorkspaceEvent)
scan_lines limit [] = some []
scan_lines limit (line ∷ lines) =
    let rest = scan_lines limit lines in
    if ltb limit line.size then none else elim line.event [
      | none ↦ rest
      | some e ↦ elim rest [ none ↦ none | some es ↦ some (e ∷ es) ]
    ]

abbrev pub all_lines : LogFile → List LogLine
all_lines file = elim file.cut [ none ↦ file.lines | some c ↦ file.lines ++ c ∷ [] ]

abbrev pub read_lines : ℕ → FileRead LogFile → Option (List WorkspaceEvent)
read_lines limit missing = some []
read_lines limit unreadable = none
read_lines limit (parsed file) = scan_lines limit (all_lines file)

-- `loadIndex`
unfoldable pub load_index : FileRead EventIndex → Result StoreError EventIndex
load_index missing = ok (record { latest_version = 0; event_count = 0 })
load_index unreadable = err bad_index
load_index (parsed idx) = ok idx

-- `event.Version = idx.LatestVersion`, after its increment
abbrev pub versioned : EventIndex → WorkspaceEvent → WorkspaceEvent
versioned idx event = record event { version = idx.latest_version + 1 }

abbrev pub next_index : EventIndex → EventIndex
next_index idx = record {
  latest_version = idx.latest_version + 1;
  event_count = idx.event_count + 1;
}

-- `saveIndex`
abbrev pub save_index : IndexFault → FileRead EventIndex → EventIndex → Bool × FileRead EventIndex
save_index index_written old idx = (true, parsed idx)
save_index index_kept old idx = (false, old)
save_index index_cut old idx = (false, unreadable)
save_index index_late old idx = (false, parsed idx)

abbrev pub indexed : EventFiles → Bool × FileRead EventIndex → Option StoreError × EventFiles
indexed files (true, index) = (none, record files { index = index })
indexed files (false, index) = (some index_failed, record files { index = index })

module _ (redaction : Redaction) where
  open redaction use {line_of}

  abbrev pub appended :
      IndexFault
      → EventFiles
      → EventIndex
      → Bool × FileRead LogFile
      → Option StoreError × EventFiles
  appended fault files idx (false, log) = (some append_failed, record files { log = log })
  appended fault files idx (true, log) =
      indexed (record files { log = log }) (save_index fault files.index (next_index idx))

  -- `Store` on an index that was loaded
  unfoldable pub append_event :
      Faults → EventFiles → EventIndex → WorkspaceEvent → Option StoreError × EventFiles
  append_event faults files idx event =
      appended faults.index files idx
        (append_line redaction faults.append files.log (line_of (versioned idx event)))

  abbrev store_with :
      Faults
      → EventFiles
      → Result StoreError EventIndex
      → WorkspaceEvent
      → Option StoreError × EventFiles
  store_with faults files (err e) event = (some e, files)
  store_with faults files (ok idx) event = append_event faults files idx event

  -- `(s *EventStore) Store`: the error, and the files after it
  unfoldable pub store : Faults → EventFiles → WorkspaceEvent → Option StoreError × EventFiles
  store faults files event = store_with faults files (load_index files.index) event

-- `readAllEvents`
unfoldable pub read_all : Redaction → EventFiles → Option (List WorkspaceEvent)
read_all redaction files = read_lines redaction.log_limit files.log

abbrev searched :
    {A : Type 0} → Option (List WorkspaceEvent) → (List WorkspaceEvent → A) → Result StoreError A
searched none f = err bad_log
searched (some events) f = ok (f events)

-- `GetRange`
unfoldable pub get_range : Redaction → EventFiles → ℕ → ℕ → Result StoreError (List WorkspaceEvent)
get_range redaction files from to =
    searched (read_all redaction files) (keep (λ e. leb from e.version && leb e.version to))

-- `GetSince`
unfoldable pub get_since : Redaction → EventFiles → ℕ → Result StoreError (List WorkspaceEvent)
get_since redaction files timestamp =
    searched (read_all redaction files) (keep (λ e. ltb timestamp e.timestamp))

abbrev or_not_found : Option WorkspaceEvent → Result StoreError WorkspaceEvent
or_not_found none = err event_not_found
or_not_found (some e) = ok e

-- `GetByID`
unfoldable pub get_by_id : Redaction → EventFiles → String → Result StoreError WorkspaceEvent
get_by_id redaction files event_id = elim (read_all redaction files) [
  | none ↦ err bad_log
  | some events ↦ or_not_found (find (λ e. e.id == event_id) events)
]

abbrev version_of : Result StoreError EventIndex → Result StoreError ℕ
version_of (ok idx) = ok idx.latest_version
version_of (err e) = err e

-- `GetLatestVersion`
unfoldable pub get_latest_version : EventFiles → Result StoreError ℕ
get_latest_version files = version_of (load_index files.index)

abbrev count_of : Result StoreError EventIndex → Result StoreError ℕ
count_of (ok idx) = ok idx.event_count
count_of (err e) = err e

-- `Count`
unfoldable pub event_count_of : EventFiles → Result StoreError ℕ
event_count_of files = count_of (load_index files.index)

-- A device's queue file
abbrev pub QueueFile : Type 0
QueueFile = FileRead LogFile

pub data QueueError : Type 0 where
  bad_queue enqueue_failed remove_failed : QueueError

abbrev queued : Bool × QueueFile → Option QueueError × QueueFile
queued (true, queue) = (none, queue)
queued (false, queue) = (some enqueue_failed, queue)

-- `Enqueue`
unfoldable pub enqueue :
    Redaction → AppendFault → QueueFile → WorkspaceEvent → Option QueueError × QueueFile
enqueue redaction fault queue event =
    queued (append_line redaction fault queue (redaction.line_of event))

-- `readAll`, and `Peek`
unfoldable pub peek : Redaction → QueueFile → Result QueueError (List WorkspaceEvent)
peek redaction queue = elim (read_lines redaction.queue_limit queue) [
  | none ↦ err bad_queue
  | some events ↦ ok events
]

abbrev taken :
    Bool
    → QueueFile
    → Result QueueError (List WorkspaceEvent)
    → Result QueueError (List WorkspaceEvent) × QueueFile
taken remove_fails queue (err e) = (err e, queue)
taken remove_fails queue (ok events) =
    if remove_fails then (err remove_failed, queue) else (ok events, missing)

-- `Dequeue`: the events, and the file after it
unfoldable pub dequeue :
    Redaction → Bool → QueueFile → Result QueueError (List WorkspaceEvent) × QueueFile
dequeue redaction remove_fails queue = taken remove_fails queue (peek redaction queue)

-- `Clear`
unfoldable pub clear : Bool → QueueFile → Option QueueError × QueueFile
clear remove_fails queue = if remove_fails then (some remove_failed, queue) else (none, missing)
