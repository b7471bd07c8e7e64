-- ===== src/Multidevice/Events/Log.antt =====
-- internal/core/multidevice/event_store.go: the log against its abstract view, the list of the events that were
-- stored, in which an event's version is its place.
use aps.Base.{
  ℕ, ◌+◌, Bool, true, false, ◌≡◌, refl, Option, none, some, List, [], ◌∷◌, ◌++◌, ok, length,
  length-append, drop, All, ap, sym, subst, ◌∙◌, arith, if◌then◌else◌, Result-cases, inl, inr,
}
use aps.Multidevice.Devices.{FileRead, missing}
use aps.Multidevice.Conflicts.{WorkspaceEvent}
use aps.Multidevice.Events.{
  EventIndex, EventFiles, LogLine, LogFile, Redaction, StoreError, Faults, AppendFault, IndexFault,
  line_written, line_refused, line_cut, index_written, index_kept, index_cut, index_late,
  load_index, versioned, append_line, appended, read_all, append_event, store, get_range,
  get_latest_version, event_count_of,
}
use aps.Multidevice.Events.Lines.{
  whole_lines, events_of, numbered, AllReadable, numbered-append_one, no_more, length-missed,
  scan_lines-numbered, keep-numbered, whole_lines-append, read_lines-whole,
}

abbrev pub empty_files : EventFiles
empty_files = record { index = missing; log = missing }

abbrev pub index_at : ℕ → EventIndex
index_at n = record { latest_version = n; event_count = n }

-- A write of a line that fails writes nothing, and the index can be written.
abbrev pub IsClean : Faults → Type 0
IsClean faults =
    ((part : LogLine) → ¬ (faults.append ≡ line_cut part)) × (faults.index ≡ index_written)

module _ (redaction : Redaction) where
  open redaction use {line_of, log_limit, version-line_of}

  -- The files hold the history.
  pub record Represents (files : EventFiles) (history : List WorkspaceEvent) : Type 0 where
    pub lines : whole_lines files.log ≡ some (numbered redaction 0 history)
    pub index : load_index files.index ≡ ok (index_at (length history))

  pub latest-Represents :
      (files : EventFiles) (history : List WorkspaceEvent)
      → Represents files history
      → get_latest_version files ≡ ok (length history)
  unfolding get_latest_version
  latest-Represents files history r = ground (arith, r.index)

  -- What one call of `Store` adds to the history.
  abbrev pub extended :
      List WorkspaceEvent → Option StoreError → WorkspaceEvent → List WorkspaceEvent
  extended history none event = history ++ event ∷ []
  extended history (some e) event = history

  appended-Represents :
      (files : EventFiles) (history : List WorkspaceEvent) (event : WorkspaceEvent)
      (result : Bool × FileRead LogFile)
      → (whole_lines result.1
          ≡ some (
              if result.0
              then numbered redaction 0 history
                ++ line_of (versioned (index_at (length history)) event) ∷ []
              else numbered redaction 0 history))
      → Represents files history
      → Represents (appended redaction index_written files (index_at (length history)) result).1 (
          extended history
            (appended redaction index_written files (index_at (length history)) result).0
            event)
  unfolding load_index
  appended-Represents files history event (false, log) grown r = record {
    lines = grown;
    index = r.index;
  }
  appended-Represents files history event (true, log) grown r = record {
    lines = ground (arith, grown, numbered-append_one redaction 0 history event);
    index = ground (arith, length-append history (event ∷ []));
  }

  append_event-Represents :
      (faults : Faults) (files : EventFiles) (history : List WorkspaceEvent)
      (event : WorkspaceEvent)
      → IsClean faults
      → Represents files history
      → Represents (append_event redaction faults files (index_at (length history)) event).1 (
          extended history
            (append_event redaction faults files (index_at (length history)) event).0
            event)
  unfolding append_event
  append_event-Represents faults files history event clean r =
      let line = line_of (versioned (index_at (length history)) event) in
      let result = append_line redaction faults.append files.log line in
      subst
        (λ fault. Represents (appended redaction fault files (index_at (length history)) result).1 (
          extended history (appended redaction fault files (index_at (length history)) result).0
            event))
        (sym clean.1)
        (appended-Represents files history event result
          (whole_lines-append redaction faults.append files.log (numbered redaction 0 history) line
            r.lines clean.0)
          r)

  appended-clean :
      (a : AppendFault) (i : IndexFault) (files : EventFiles) (idx : EventIndex) (line : LogLine)
      → (appended redaction i files idx (append_line redaction a files.log line)).0 ≡ none
      → ((part : LogLine) → ¬ (a ≡ line_cut part)) × (i ≡ index_written)
  unfolding append_line
  appended-clean line_written index_written files idx line h = ((λ part e. ground (arith, e)), refl)
  appended-clean line_written index_kept files idx line h = absurd (ground (arith, h))
  appended-clean line_written index_cut files idx line h = absurd (ground (arith, h))
  appended-clean line_written index_late files idx line h = absurd (ground (arith, h))
  appended-clean line_refused i files idx line h = absurd (ground (arith, h))
  appended-clean (line_cut part) i files idx line h = absurd (ground (arith, h))

  -- A call that reports no error has written its line and the index.
  pub stored-IsClean :
      (faults : Faults) (files : EventFiles) (event : WorkspaceEvent)
      → (store redaction faults files event).0 ≡ none
      → IsClean faults
  unfolding store append_event
  stored-IsClean faults files event h = elim (Result-cases (load_index files.index)) [
    | inl (e, bad) ↦ absurd (ground (arith, h, bad))
    | inr (idx, loaded) ↦
        appended-clean faults.append faults.index files idx (line_of (versioned idx event))
          (ground (arith, h, loaded))
  ]

  -- One call of `Store`.
  pub store-Represents :
      (faults : Faults) (files : EventFiles) (history : List WorkspaceEvent)
      (event : WorkspaceEvent)
      → IsClean faults
      → Represents files history
      → Represents
          (store redaction faults files event).1
          (extended history (store redaction faults files event).0 event)
  unfolding store
  store-Represents faults files history event clean r =
      rw r.index (append_event-Represents faults files history event clean r)

  -- Calls of `Store` in a row, and the events that they report as stored.
  pub run_stores : EventFiles → List (Faults × WorkspaceEvent) → EventFiles
  run_stores files [] = files
  run_stores files ((faults, event) ∷ rest) = run_stores (store redaction faults files event).1 rest

  unfoldable pub reported_stored :
      EventFiles → List WorkspaceEvent → List (Faults × WorkspaceEvent) → List WorkspaceEvent
  reported_stored files history [] = history
  reported_stored files history ((faults, event) ∷ rest) =
      reported_stored (store redaction faults files event).1
        (extended history (store redaction faults files event).0 event) rest

  run_stores-Represents :
      (files : EventFiles) (history : List WorkspaceEvent) (calls : List (Faults × WorkspaceEvent))
      → All (λ c. IsClean c.0) calls
      → Represents files history
      → Represents (run_stores files calls) (reported_stored files history calls)
  unfolding run_stores reported_stored
  run_stores-Represents files history [] clean r = r
  run_stores-Represents files history ((faults, event) ∷ rest) clean r =
      run_stores-Represents (store redaction faults files event).1
        (extended history (store redaction faults files event).0 event) rest clean.1
        (store-Represents faults files history event clean.0 r)

  -- What a client reads of files that hold a history.
  pub record Answers (files : EventFiles) (history : List WorkspaceEvent) : Type 0 where
    pub latest : get_latest_version files ≡ ok (length history)
    pub count : event_count_of files ≡ ok (length history)
    pub missed :
        (since : ℕ)
        → get_range redaction files (since + 1) (length history)
          ≡ ok (events_of (numbered redaction since (drop since history)))
    pub none_lost :
        (since : ℕ)
        → length (events_of (numbered redaction since (drop since history)))
          ≡ length (drop since history)

  read_all-Represents :
      (files : EventFiles) (history : List WorkspaceEvent)
      → AllReadable redaction 0 history
      → Represents files history
      → read_all redaction files ≡ some (events_of (numbered redaction 0 history))
  unfolding read_all
  read_all-Represents files history readable r =
      read_lines-whole redaction log_limit files.log (numbered redaction 0 history) r.lines
      ∙ scan_lines-numbered redaction 0 history readable

  pub Represents-Answers :
      (files : EventFiles) (history : List WorkspaceEvent)
      → AllReadable redaction 0 history
      → Represents files history
      → Answers files history
  unfolding get_latest_version event_count_of get_range
  Represents-Answers files history readable r = record {
    latest = ground (arith, r.index);
    count = ground (arith, r.index);
    missed = λ since.
        let kept =
          keep-numbered redaction since 0 (since + 1) (length history) history readable
            (omega arith) (omega arith) in
        rw (read_all-Represents files history readable r) (
          ap ok (
            kept
            ∙ ap (λ m. events_of (numbered redaction m (drop since history)))
                (no_more redaction since)));
    none_lost = λ since. length-missed redaction since history readable;
  }

  -- The log refines an append-only list. After any calls of Store on a new log in which a write of an event writes the
  -- line or nothing, and the index can be written: if the lines of the events that were reported as stored parse
  -- and are within the scanner's limit, the latest version and the count are the number of these events, and a
  -- read of what was missed since a version gives all events after it, in order, each with its place as its
  -- version.
  pub run_stores-Answers :
      (calls : List (Faults × WorkspaceEvent))
      → All (λ c. IsClean c.0) calls
      → AllReadable redaction 0 (reported_stored empty_files [] calls)
      → Answers (run_stores empty_files calls) (reported_stored empty_files [] calls)
  run_stores-Answers calls clean readable =
      let empty : Represents empty_files [] = record {
        lines = refl;
        index = unfold load_index in refl;
      } in
      Represents-Answers (run_stores empty_files calls) (reported_stored empty_files [] calls)
        readable (run_stores-Represents empty_files [] calls clean empty)
