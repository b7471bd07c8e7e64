-- ===== src/Multidevice/Events/Tests.antt =====
-- internal/core/multidevice/event_store.go and offline_queue.go: a log of three events, and the theorems at it.
use aps.Base.{
  ℕ, String, false, ◌≡◌, refl, Option, none, some, List, [], ◌∷◌, map, ap, sym, ok, err, arith,
}
use aps.Multidevice.Devices.{missing, unreadable, parsed}
use aps.Multidevice.Conflicts.{WorkspaceEvent}
use aps.Multidevice.Conflicts.Tests.{write_of}
use aps.Multidevice.Events.{
  EventFiles, QueueFile, Redaction, Faults, line_written, line_refused, line_cut, index_written,
  index_kept, index_cut, bad_index, bad_log, append_failed, event_not_found, load_index, versioned,
  append_line, scan_lines, read_all, append_event, store, get_range, get_since, get_by_id, enqueue,
  peek, dequeue, clear,
}
use aps.Multidevice.Events.Lines.{numbered}
use aps.Multidevice.Events.Log.{
  IsClean, empty_files, index_at, run_stores, reported_stored, Answers, run_stores-Answers,
}

abbrev pub version_or : Option WorkspaceEvent → ℕ
version_or none = 0
version_or (some e) = e.version

-- No text of these events is changed. A line has a byte for each tick of its event's time, and two lines that are joined
-- do not parse.
abbrev pub plain : Redaction
plain = record {
  line_of = λ e. record { size = e.timestamp; event = some e };
  joined = λ l m. record { size = l.size; event = none };
  log_limit = 64;
  queue_limit = 1024;
  version-line_of = λ e r h. ap version_or (sym h);
}

abbrev pub no_fault : Faults
no_fault = record { append = line_written; index = index_written }

abbrev pub refused_line : Faults
refused_line = record { append = line_refused; index = index_written }

pub no_fault-IsClean : IsClean no_fault
no_fault-IsClean = ((λ part h. ground (arith, h)), refl)

pub refused_line-IsClean : IsClean refused_line
refused_line-IsClean = ((λ part h. ground (arith, h)), refl)

abbrev pub event_of : String → ℕ → WorkspaceEvent
event_of device_id timestamp = write_of device_id timestamp 0

abbrev pub queue_of : List WorkspaceEvent → QueueFile
queue_of events = parsed (record { lines = map (λ e. plain.line_of e) events; cut = none })

abbrev calls : List (Faults × WorkspaceEvent)
calls =
    (no_fault, event_of "desk" 1)
    ∷ (refused_line, event_of "phone" 2)
    ∷ (no_fault, event_of "phone" 3)
    ∷ []

abbrev history : List WorkspaceEvent
history = event_of "desk" 1 ∷ event_of "phone" 3 ∷ []

two_reported : reported_stored plain empty_files [] calls ≡ history
unfolding reported_stored store append_event append_line load_index
two_reported = refl

run_stores-Answers_example :
    Answers plain (run_stores plain empty_files calls) (reported_stored plain empty_files [] calls)
unfolding reported_stored store append_event append_line load_index
run_stores-Answers_example =
    run_stores-Answers plain calls
      (no_fault-IsClean, (refused_line-IsClean, (no_fault-IsClean, tt)))
      (
        omega arith,
        (versioned (index_at 0) (event_of "desk" 1), refl),
        (omega arith, (versioned (index_at 1) (event_of "phone" 3), refl), tt),
      )

abbrev one_stored : EventFiles
one_stored = record {
  index = parsed (index_at 1);
  log = parsed (record { lines = numbered plain 0 (event_of "desk" 1 ∷ []); cut = none });
}

-- The index could not be opened: the event is in the log though an error is returned, and the next one gets its version.
version_reused :
    (store plain no_fault
      (store plain
        (record { append = line_written; index = index_kept })
        empty_files
        (event_of "desk" 1)).1
      (event_of "phone" 3)).1
    ≡ record {
      index = parsed (index_at 1);
      log = parsed (record {
        lines =
            plain.line_of (versioned (index_at 0) (event_of "desk" 1))
            ∷ plain.line_of (versioned (index_at 0) (event_of "phone" 3))
            ∷ [];
        cut = none;
      });
    }
unfolding store append_event append_line load_index
version_reused = refl

-- The index was truncated and not written: every later Store fails.
index_lost :
    (store plain no_fault
      (store plain
        (record { append = line_written; index = index_cut })
        empty_files
        (event_of "desk" 1)).1
      (event_of "phone" 3)).0
    ≡ some bad_index
unfolding store append_event append_line load_index
index_lost = refl

-- A part of a line was written: the next event is reported as stored, and no read gives it.
event_swallowed :
    let half =
      store plain
        (record { append = line_cut (record { size = 1; event = none }); index = index_written })
        one_stored
        (event_of "desk" 2) in
    let after = store plain no_fault half.1 (event_of "phone" 3) in
    (half.0 ≡ some append_failed)
    × (after.0 ≡ none)
    × (read_all plain after.1 ≡ some (versioned (index_at 0) (event_of "desk" 1) ∷ []))
unfolding store append_event append_line load_index read_all scan_lines
event_swallowed = (refl, refl, refl)

-- An event with a long line is reported as stored, and every read of the log fails.
long_line :
    let after = store plain no_fault one_stored (event_of "phone" 65) in
    (after.0 ≡ none) × (get_range plain after.1 1 1 ≡ err bad_log)
unfolding store append_event append_line load_index get_range read_all scan_lines
long_line = (refl, refl)

abbrev stored : EventFiles
stored = record {
  index = parsed (index_at 2);
  log = parsed (record { lines = numbered plain 0 history; cut = none });
}

later_ones : get_since plain stored 1 ≡ ok (versioned (index_at 1) (event_of "phone" 3) ∷ [])
unfolding get_since read_all scan_lines
later_ones = refl

no_such_event : get_by_id plain stored "tv" ≡ err event_not_found
unfolding get_by_id read_all scan_lines
no_such_event = refl

queue_round_trip :
    dequeue plain false
      (enqueue plain line_written
        (enqueue plain line_written missing (event_of "desk" 1)).1
        (event_of "desk" 2)).1
    ≡ (ok (event_of "desk" 1 ∷ event_of "desk" 2 ∷ []), missing)
unfolding dequeue enqueue append_line peek scan_lines
queue_round_trip = refl

queue_cleared : (clear false unreadable).1 ≡ missing
unfolding clear
queue_cleared = refl
