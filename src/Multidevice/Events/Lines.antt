-- ===== src/Multidevice/Events/Lines.antt =====
-- internal/core/multidevice/event_store.go: the lines of a log in which an event's version is its place, and what a scan
-- of them reads.
use aps.Base.{
  ℕ, zero, suc, ◌+◌, ◌≤◌, Bool, ◌&&◌, ◌≡◌, refl, Option, none, some, List, [], ◌∷◌, ◌++◌, keep, leb,
  length, drop, ap, subst, ◌∙◌, arith, if◌then◌else◌, Option-cases, inl, inr,
}
use aps.Multidevice.Devices.{FileRead, missing, unreadable, parsed}
use aps.Multidevice.Conflicts.{WorkspaceEvent}
use aps.Multidevice.Events.{
  LogLine, LogFile, Redaction, AppendFault, line_written, line_refused, line_cut, append_line,
  scan_lines, all_lines, read_lines,
}

-- The lines of a file that can be read and whose last line has its end.
abbrev pub whole_lines : FileRead LogFile → Option (List LogLine)
whole_lines missing = some []
whole_lines unreadable = none
whole_lines (parsed file) = elim file.cut [ none ↦ some file.lines | some c ↦ none ]

-- The event of a line that parses.
abbrev pub events_of : List LogLine → List WorkspaceEvent
events_of [] = []
events_of (line ∷ lines) = elim line.event [ none ↦ events_of lines | some e ↦ e ∷ events_of lines ]

module _ (redaction : Redaction) where
  open redaction use {line_of, log_limit, version-line_of}

  -- The lines of a history whose first event has the version `n + 1`.
  abbrev pub numbered : ℕ → List WorkspaceEvent → List LogLine
  numbered n [] = []
  numbered n (e ∷ es) = line_of (record e { version = n + 1 }) ∷ numbered (n + 1) es

  -- Each of these lines is short enough for the scanner and parses.
  abbrev pub AllReadable : ℕ → List WorkspaceEvent → Type 0
  AllReadable n [] = Unit
  AllReadable n (e ∷ es) =
      ((line_of (record e { version = n + 1 })).size ≤ log_limit)
      × ((r : WorkspaceEvent) × ((line_of (record e { version = n + 1 })).event ≡ some r))
      × AllReadable (n + 1) es

  pub numbered-append_one :
      (n : ℕ) (es : List WorkspaceEvent) (e : WorkspaceEvent)
      → numbered n (es ++ e ∷ [])
        ≡ numbered n es ++ line_of (record e { version = n + length es + 1 }) ∷ []
  numbered-append_one n [] e = ap (λ v. line_of (record e { version = v }) ∷ []) (omega arith)
  numbered-append_one n (x ∷ es) e =
      ap (λ rest. line_of (record x { version = n + 1 }) ∷ rest)
        (numbered-append_one (n + 1) es e
          ∙ ap (λ v. numbered (n + 1) es ++ line_of (record e { version = v }) ∷ []) (omega arith))

  pub no_more : (n : ℕ) → 0 + n ≡ n
  no_more n = omega arith

  moved : (n k : ℕ) → n + 1 + k ≡ n + suc k
  moved n k = omega arith

  pub length-numbered :
      (n : ℕ) (es : List WorkspaceEvent)
      → AllReadable n es
      → length (events_of (numbered n es)) ≡ length es
  length-numbered n [] h = refl
  length-numbered n (e ∷ es) (short, (r, parses), h) =
      ground (arith, parses, length-numbered (n + 1) es h)

  AllReadable-drop :
      (k n : ℕ) (es : List WorkspaceEvent) → AllReadable n es → AllReadable (n + k) (drop k es)
  AllReadable-drop zero n es h = subst (λ m. AllReadable m es) (omega arith) h
  AllReadable-drop (suc k) n [] h = tt
  AllReadable-drop (suc k) n (e ∷ es) h =
      subst (λ m. AllReadable m (drop k es)) (moved n k) (AllReadable-drop k (n + 1) es h.2)

  pub length-missed :
      (k : ℕ) (es : List WorkspaceEvent)
      → AllReadable 0 es
      → length (events_of (numbered k (drop k es))) ≡ length (drop k es)
  length-missed k es h =
      length-numbered k (drop k es)
        (subst (λ m. AllReadable m (drop k es)) (no_more k) (AllReadable-drop k 0 es h))

  pub scan_lines-numbered :
      (n : ℕ) (es : List WorkspaceEvent)
      → AllReadable n es
      → scan_lines log_limit (numbered n es) ≡ some (events_of (numbered n es))
  unfolding scan_lines
  scan_lines-numbered n [] h = refl
  scan_lines-numbered n (e ∷ es) (short, (r, parses), h) =
      ground (arith, short, parses, scan_lines-numbered (n + 1) es h)

  abbrev in_range : ℕ → ℕ → WorkspaceEvent → Bool
  in_range low high e = leb low e.version && leb e.version high

  keep-numbered_whole :
      (n low high : ℕ) (es : List WorkspaceEvent)
      → AllReadable n es
      → low ≤ n + 1
      → n + length es ≤ high
      → keep (in_range low high) (events_of (numbered n es)) ≡ events_of (numbered n es)
  keep-numbered_whole n low high [] w l h = refl
  keep-numbered_whole n low high (e ∷ es) (short, (r, parses), w) l h = ground (
    arith,
    parses,
    version-line_of (record e { version = n + 1 }) r parses,
    keep-numbered_whole (n + 1) low high es w (omega arith) (omega arith),
  )

  pub keep-numbered :
      (k n low high : ℕ) (es : List WorkspaceEvent)
      → AllReadable n es
      → low ≡ n + k + 1
      → n + length es ≤ high
      → keep (in_range low high) (events_of (numbered n es))
        ≡ events_of (numbered (n + k) (drop k es))
  keep-numbered zero n low high es w l h =
      keep-numbered_whole n low high es w (omega arith) h
      ∙ ap (λ m. events_of (numbered m es)) (omega arith)
  keep-numbered (suc k) n low high [] w l h = refl
  keep-numbered (suc k) n low high (e ∷ es) (short, (r, parses), w) l h =
      let rest = keep-numbered k (n + 1) low high es w (omega arith) (omega arith) in
      ground (
        arith,
        parses,
        version-line_of (record e { version = n + 1 }) r parses,
        l,
        rest,
        ap (λ m. events_of (numbered m (drop k es))) (moved n k),
      )

  pub read_lines-whole :
      (limit : ℕ) (log : FileRead LogFile) (lines : List LogLine)
      → whole_lines log ≡ some lines
      → read_lines limit log ≡ scan_lines limit lines
  unfolding scan_lines
  read_lines-whole limit missing lines h =
      let same : [] ≡ lines = ground (arith, h) in ap (scan_lines limit) same
  read_lines-whole limit unreadable lines h = absurd (ground (arith, h))
  read_lines-whole limit (parsed file) lines h = elim (Option-cases file.cut) [
    | inl whole ↦
        let same : all_lines file ≡ lines = ground (arith, h, whole) in ap (scan_lines limit) same
    | inr (c, broken) ↦ absurd (ground (arith, h, broken))
  ]

  pub whole_lines-append :
      (fault : AppendFault) (log : FileRead LogFile) (lines : List LogLine) (line : LogLine)
      → whole_lines log ≡ some lines
      → ((part : LogLine) → ¬ (fault ≡ line_cut part))
      → whole_lines (append_line redaction fault log line).1
        ≡ some (if (append_line redaction fault log line).0 then lines ++ line ∷ [] else lines)
  unfolding append_line
  whole_lines-append line_written missing lines line h sound = ground (arith, h)
  whole_lines-append line_written unreadable lines line h sound = absurd (ground (arith, h))
  whole_lines-append line_written (parsed file) lines line h sound = elim (Option-cases file.cut) [
    | inl whole ↦ ground (arith, h, whole)
    | inr (c, broken) ↦ absurd (ground (arith, h, broken))
  ]
  whole_lines-append line_refused log lines line h sound = h
  whole_lines-append (line_cut part) log lines line h sound = absurd (sound part refl)
