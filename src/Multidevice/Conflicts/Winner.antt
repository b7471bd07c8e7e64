-- ===== src/Multidevice/Conflicts/Winner.antt =====
-- internal/core/multidevice/lww_resolver.go: which write wins, and that every device finds the same one.
use aps.Base.{
  ℕ, Bool, true, false, ◌≡◌, ◌↔◌, ◌⊎◌, inl, inr, refl, List, [], ◌∷◌, ok, some, ◌≢◌, IsIn, at_head,
  in_tail, text_gtb_trans, text_gtb_antisym, text_gtb_asym, if◌then◌else◌, arith, Bool-cases, subst,
}
use aps.Multidevice.Conflicts.{
  WorkspaceEvent, Conflict, auto_resolved, resolution_by, settle, resolve_lww, beats, winner_of,
}

beats_trans : (a b c : WorkspaceEvent) → beats a b ≡ false → beats b c ≡ false → beats a c ≡ false
unfolding beats
beats_trans a b c h k = ground (arith, h, k, text_gtb_trans a.device_id b.device_id c.device_id)

beats_asym : (a b : WorkspaceEvent) → beats a b ≡ true → beats b a ≡ false
unfolding beats
beats_asym a b h = ground (arith, h, text_gtb_asym a.device_id b.device_id)

beats_refl : (a : WorkspaceEvent) → beats a a ≡ false
beats_refl a = elim (Bool-cases (beats a a)) [ inl h ↦ beats_asym a a h | inr h ↦ h ]

beats_antisym :
    (a b : WorkspaceEvent)
    → beats a b ≡ false
    → beats b a ≡ false
    → (a.timestamp ≡ b.timestamp) × (a.device_id ≡ b.device_id)
unfolding beats
beats_antisym a b h k = (
  ground (arith, h, k),
  text_gtb_antisym a.device_id b.device_id (ground (arith, h, k)) (ground (arith, h, k)),
)

abbrev later_of : WorkspaceEvent → WorkspaceEvent → WorkspaceEvent
later_of event winner = if beats event winner then event else winner

later_of-unbeaten :
    (event winner : WorkspaceEvent)
    → (beats winner (later_of event winner) ≡ false) × (beats event (later_of event winner) ≡ false)
later_of-unbeaten event winner =
    ground (arith, beats_asym event winner, beats_refl event, beats_refl winner)

later_of-choice :
    (event winner : WorkspaceEvent)
    → (later_of event winner ≡ event) ⊎ (later_of event winner ≡ winner)
later_of-choice event winner = go (beats event winner)
  where
    go :
        (b : Bool)
        → ((if b then event else winner) ≡ event) ⊎ ((if b then event else winner) ≡ winner)
    go true = inl refl
    go false = inr refl

skip_second :
    {a x y : WorkspaceEvent} {events : List WorkspaceEvent}
    → IsIn a (x ∷ events)
    → IsIn a (x ∷ y ∷ events)
skip_second at_head = at_head
skip_second (in_tail h) = in_tail (in_tail h)

winner_of-unbeaten_first :
    (first : WorkspaceEvent) (events : List WorkspaceEvent)
    → beats first (winner_of first events) ≡ false
unfolding winner_of
winner_of-unbeaten_first first [] = beats_refl first
winner_of-unbeaten_first first (e ∷ events) =
    beats_trans first (later_of e first) (winner_of (later_of e first) events)
      (later_of-unbeaten e first).0 (winner_of-unbeaten_first (later_of e first) events)

winner_of-unbeaten_later :
    (event first : WorkspaceEvent) (events : List WorkspaceEvent)
    → IsIn event events
    → beats event (winner_of first events) ≡ false
unfolding winner_of
winner_of-unbeaten_later event first [] h = elim h [ ]
winner_of-unbeaten_later event first (e ∷ events) at_head =
    beats_trans e (later_of e first) (winner_of (later_of e first) events)
      (later_of-unbeaten e first).1 (winner_of-unbeaten_first (later_of e first) events)
winner_of-unbeaten_later event first (e ∷ events) (in_tail h) =
    winner_of-unbeaten_later event (later_of e first) events h

-- No event of the conflict beats the winner: none is later, and of those at the same time none has a
-- greater device ID.
winner_of-unbeaten :
    (event first : WorkspaceEvent) (events : List WorkspaceEvent)
    → IsIn event (first ∷ events)
    → beats event (winner_of first events) ≡ false
winner_of-unbeaten event first events at_head = winner_of-unbeaten_first first events
winner_of-unbeaten event first events (in_tail h) = winner_of-unbeaten_later event first events h

-- The winner is one of the events.
pub winner_of-IsIn :
    (first : WorkspaceEvent) (events : List WorkspaceEvent)
    → IsIn (winner_of first events) (first ∷ events)
unfolding winner_of
winner_of-IsIn first [] = at_head
winner_of-IsIn first (e ∷ events) =
    let found = winner_of-IsIn (later_of e first) events in
    let at = λ (x : WorkspaceEvent). IsIn (winner_of (later_of e first) events) (x ∷ events) in
    elim (later_of-choice e first) [
      | inl q ↦ in_tail (subst at q found)
      | inr q ↦ skip_second (subst at q found)
    ]

-- Two devices that hold the same events of a conflict, in whatever order and however often, find winners of
-- one time and one device.
pub winners_agree :
    (first first' : WorkspaceEvent) (events events' : List WorkspaceEvent)
    → ((e : WorkspaceEvent) → IsIn e (first ∷ events) ↔ IsIn e (first' ∷ events'))
    → ((winner_of first events).timestamp ≡ (winner_of first' events').timestamp)
      × ((winner_of first events).device_id ≡ (winner_of first' events').device_id)
winners_agree first first' events events' same =
    let w = winner_of first events in
    let w' = winner_of first' events' in
    beats_antisym w w'
      (winner_of-unbeaten w first' events' ((same w).0 (winner_of-IsIn first events)))
      (winner_of-unbeaten w' first events ((same w').1 (winner_of-IsIn first' events')))

-- What a conflict of these events is after its resolution: closed, with a winner among them that none beats.
abbrev pub HasWinner : List WorkspaceEvent → Conflict → Type 0
HasWinner events later =
    (w : WorkspaceEvent) × (IsIn w events
      × ((e : WorkspaceEvent) → IsIn e events → beats e w ≡ false)
      × (later.status ≡ auto_resolved)
      × (later.resolution ≡ some (resolution_by w)))

abbrev value_of : ℕ → Conflict → WorkspaceEvent → List WorkspaceEvent → Conflict
value_of now conflict e events = record conflict {
  status = auto_resolved;
  resolved_at = some now;
  resolution = some (resolution_by (winner_of e events));
}

settle-HasWinner :
    (now : ℕ) (conflict : Conflict) (events : List WorkspaceEvent)
    → events ≢ []
    → (later : Conflict) × ((settle now conflict events ≡ ok later) × HasWinner events later)
settle-HasWinner now conflict [] some_event = absurd (some_event refl)
settle-HasWinner now conflict (e ∷ events) some_event = (
  value_of now conflict e events,
  (
    refl,
    (
      winner_of e events,
      (winner_of-IsIn e events, (λ x h. winner_of-unbeaten x e events h), refl, refl),
    ),
  ),
)

-- A conflict that has events is resolved by the last write: it is closed automatically, and the winner that is
-- recorded is one of its events that no other beats (by its time, then by its device ID).
pub resolve_lww_latest :
    (now : ℕ) (conflict : Conflict)
    → conflict.events ≢ []
    → (later : Conflict) × ((resolve_lww now conflict ≡ ok later) × HasWinner conflict.events later)
unfolding resolve_lww
resolve_lww_latest now conflict some_event =
    settle-HasWinner now conflict conflict.events some_event
