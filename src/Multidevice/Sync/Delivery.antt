-- ===== src/Multidevice/Sync/Delivery.antt =====
-- internal/core/multidevice/sync_manager.go: which events of the offline queue reach the log, and what is counted.
use mathlib.Core.List.{append_assoc, append-nil}
use aps.Base.{
  ℕ, suc, ◌+◌, ◌-◌, ◌<◌, Bool, false, ◌≡◌, ◌≢◌, refl, ◌⊎◌, inl, inr, Option, none, some, List, [],
  ◌∷◌, ◌++◌, Result, ok, err, length, length-append, length-drop, drop, ap, sym, subst, ◌∙◌, arith,
  leb,
}
use aps.Multidevice.Devices.{missing}
use aps.Multidevice.Conflicts.{WorkspaceEvent, ConflictFiles}
use aps.Multidevice.Events.{EventFiles, Redaction, StoreError, store, QueueFile, peek, dequeue}
use aps.Multidevice.Events.Lines.{AllReadable, events_of, numbered, length-missed}
use aps.Multidevice.Events.Log.{
  IsClean, Represents, extended, store-Represents, stored-IsClean, Represents-Answers,
  latest-Represents,
}
use aps.Multidevice.Sync.{
  Outside, SyncResult, SyncError, SyncState, store_after, stored_in, go_on, ended, settle_event,
  sync_event, sync_events, started, initiate_sync, Synced,
}
use aps.Multidevice.Sync.Settlement.{IsBalanced, Keeps, settle_event-Keeps}

if_behind : (last latest : ℕ) → last < latest → leb latest last ≡ false
if_behind last latest h = ground arith

dequeued :
    (redaction : Redaction) (remove_fails : Bool) (queue : QueueFile)
    (offline : List WorkspaceEvent)
    → remove_fails ≡ false
    → peek redaction queue ≡ ok offline
    → dequeue redaction remove_fails queue ≡ (ok offline, missing)
unfolding dequeue
dequeued redaction remove_fails queue offline h k = rw (h, k) refl

module _ (redaction : Redaction) (conflict_files : ConflictFiles) (outside : Outside) where
  abbrev State : Type 0
  State = SyncState redaction conflict_files outside

  -- The history after one turn.
  abbrev after_turn : List WorkspaceEvent → Option SyncError → WorkspaceEvent → List WorkspaceEvent
  after_turn history none event = history ++ event ∷ []
  after_turn history (some e) event = history

  -- No write is cut, and the index can be written.
  abbrev pub AllClean : Type 0
  AllClean = (turn : ℕ) → IsClean (outside.faults turn)

  record Turn (turn : ℕ) (s : State) (history : List WorkspaceEvent) (event : WorkspaceEvent)
      (p : Option SyncError × State) : Type 0 where
    log :
        (p.0 ≡ none) ⊎ IsClean (outside.faults turn)
        → Represents redaction p.1.events (after_turn history p.0 event)
    synced : p.1.result.events_synced ≡ s.result.events_synced
    balanced : IsBalanced s.result → IsBalanced p.1.result

  stored_in-Turn :
      (turn : ℕ) (s s' : State) (history : List WorkspaceEvent) (event : WorkspaceEvent)
      (p : Option StoreError × EventFiles)
      → Keeps redaction conflict_files outside s s'
      → ((p.0 ≡ none) ⊎ IsClean (outside.faults turn)
          → Represents redaction p.1 (extended redaction history p.0 event))
      → Turn turn s history event (stored_in redaction conflict_files outside s' p)
  stored_in-Turn turn s s' history event (none, files) k r = record {
    log = λ h. r (inl refl);
    synced = k.synced;
    balanced = k.balanced;
  }
  stored_in-Turn turn s s' history event (some e, files) k r = record {
    log = λ h. elim h [ inl sent ↦ absurd (ground (arith, sent)) | inr clean ↦ r (inr clean) ];
    synced = k.synced;
    balanced = k.balanced;
  }

  store_after-Turn :
      (turn : ℕ) (s : State) (history : List WorkspaceEvent) (event : WorkspaceEvent)
      (settled : Result SyncError State)
      → settle_event redaction conflict_files outside turn s event ≡ settled
      → Represents redaction s.events history
      → Turn turn s history event
          (store_after redaction conflict_files outside turn s event settled)
  store_after-Turn turn s history event (err e) h r = record {
    log = λ _. r;
    synced = refl;
    balanced = λ b. b;
  }
  store_after-Turn turn s history event (ok s') h r =
      let kept = settle_event-Keeps redaction conflict_files outside turn s s' event h in
      let r' = subst (λ (f : EventFiles). Represents redaction f history) (sym kept.events) r in
      let faults = outside.faults turn in
      let stored =
        λ (c : IsClean faults). store-Represents redaction faults s'.events history event c r' in
      stored_in-Turn turn s s' history event (store redaction faults s'.events event) kept (λ h.
        elim h [
          | inl sent ↦ stored (stored-IsClean redaction faults s'.events event sent)
          | inr clean ↦ stored clean
        ])

  sync_event-Turn :
      (turn : ℕ) (s : State) (history : List WorkspaceEvent) (event : WorkspaceEvent)
      → Represents redaction s.events history
      → Turn turn s history event (sync_event redaction conflict_files outside turn s event)
  unfolding sync_event
  sync_event-Turn turn s history event r =
      store_after-Turn turn s history event
        (settle_event redaction conflict_files outside turn s event) refl r

  -- The events that were sent are the first ones of the queue.
  pub record Delivered (s : State) (history offline : List WorkspaceEvent)
      (p : Option SyncError × State) : Type 0 where
    pub sent : List WorkspaceEvent
    pub unsent : List WorkspaceEvent
    pub split : offline ≡ sent ++ unsent
    pub log : (p.0 ≡ none) ⊎ AllClean → Represents redaction p.1.events (history ++ sent)
    pub whole : p.0 ≡ none → unsent ≡ []
    pub partial : p.0 ≢ none → unsent ≢ []
    pub synced : p.1.result.events_synced ≡ s.result.events_synced
    pub balanced : IsBalanced s.result → IsBalanced p.1.result

  go_on-Delivered :
      (turn : ℕ) (s : State) (history rest : List WorkspaceEvent) (event : WorkspaceEvent)
      (next : State → Option SyncError × State) (p : Option SyncError × State)
      → Turn turn s history event p
      → (p.0 ≡ none → Delivered p.1 (history ++ event ∷ []) rest (next p.1))
      → Delivered s history (event ∷ rest) (go_on redaction conflict_files outside next p)
  go_on-Delivered turn s history rest event next (none, s') t later =
      let d = later refl in
      record {
        sent = event ∷ d.sent;
        unsent = d.unsent;
        split = ap (λ l. event ∷ l) d.split;
        log = λ h.
            subst (Represents redaction (next s').1.events)
              (append_assoc history (event ∷ []) d.sent) (d.log h);
        whole = d.whole;
        partial = d.partial;
        synced = d.synced ∙ t.synced;
        balanced = λ b. d.balanced (t.balanced b);
      }
  go_on-Delivered turn s history rest event next (some e, s') t later = record {
    sent = [];
    unsent = event ∷ rest;
    split = refl;
    log = λ h. elim h [
      | inl sent ↦ absurd (ground (arith, sent))
      | inr clean ↦
          subst (Represents redaction s'.events) (sym (append-nil history))
            (t.log (inr (clean turn)))
    ];
    whole = λ h. absurd (ground (arith, h));
    partial = λ h. ground arith;
    synced = t.synced;
    balanced = t.balanced;
  }

  pub sync_events-Delivered :
      (turn : ℕ) (s : State) (history offline : List WorkspaceEvent)
      → Represents redaction s.events history
      → Delivered s history offline (sync_events redaction conflict_files outside turn s offline)
  unfolding sync_events
  sync_events-Delivered turn s history [] r = record {
    sent = [];
    unsent = [];
    split = refl;
    log = λ _. subst (Represents redaction s.events) (sym (append-nil history)) r;
    whole = λ h. refl;
    partial = λ h. absurd (h refl);
    synced = refl;
    balanced = λ b. b;
  }
  sync_events-Delivered turn s history (event ∷ rest) r =
      let turned = sync_event-Turn turn s history event r in
      let p = sync_event redaction conflict_files outside turn s event in
      go_on-Delivered turn s history rest event
        (λ s'. sync_events redaction conflict_files outside (suc turn) s' rest) p turned
        (λ none_failed. sync_events-Delivered (suc turn) p.1 (history ++ event ∷ []) rest (
          subst
            (λ (o : Option SyncError). Represents redaction p.1.events (after_turn history o event))
            none_failed (turned.log (inl none_failed))))

  module _ (last : ℕ) (queue : QueueFile) (s : State) (history offline : List WorkspaceEvent) where
    -- The state in which the loop begins.
    abbrev begun : State
    begun = record s {
      result =
          started
            (length (events_of (numbered redaction last (drop last history))) + length offline)
            (length history);
    }

    abbrev looped : Option SyncError × State
    looped = sync_events redaction conflict_files outside 0 begun offline

    abbrev synced : Synced redaction conflict_files outside
    synced = initiate_sync redaction conflict_files outside last queue s

    initiated :
        outside.remove_fails ≡ false
        → AllReadable redaction 0 history
        → Represents redaction s.events history
        → last < length history
        → peek redaction queue ≡ ok offline
        → synced ≡ ended redaction conflict_files outside missing looped
    unfolding initiate_sync
    initiated removes readable r behind queued =
        let a = Represents-Answers redaction s.events history readable r in
        rw
          (
            a.latest,
            if_behind last (length history) behind,
            a.missed last,
            dequeued redaction outside.remove_fails queue offline removes queued,
          )
          refl

    -- What a sync that succeeds leaves and counts.
    abbrev pub Arrived : Synced redaction conflict_files outside → SyncResult → Type 0
    Arrived y r =
        Represents redaction y.state.events (history ++ offline)
        × (y.queue ≡ missing)
        × (r.events_synced ≡ (length history - last) + length offline)
        × (r.latest_version ≡ length history + length offline)
        × (r.conflicts ≡ r.auto + r.manual_pending)

    -- What a sync that fails leaves: some events are in no file.
    abbrev pub Lost : Synced redaction conflict_files outside → Type 0
    Lost y =
        (sent : List WorkspaceEvent) × (unsent : List WorkspaceEvent) × ((offline ≡ sent ++ unsent)
          × (unsent ≢ [])
          × (y.queue ≡ missing)
          × Represents redaction y.state.events (history ++ sent))

    ended-Arrived :
        (p : Option SyncError × State) (r : SyncResult)
        → Delivered begun history offline p
        → AllReadable redaction 0 history
        → (ended redaction conflict_files outside missing p).outcome ≡ ok r
        → Arrived (ended redaction conflict_files outside missing p) r
    ended-Arrived (some e, s') r d readable h = absurd (ground (arith, h))
    ended-Arrived (none, s') r d readable h =
        let all_sent : offline ≡ d.sent =
          d.split ∙ ap (λ l. d.sent ++ l) (d.whole refl) ∙ append-nil d.sent in
        let rep =
          subst (λ l. Represents redaction s'.events (history ++ l)) (sym all_sent)
            (d.log (inl refl)) in
        let latest = latest-Represents redaction s'.events (history ++ offline) rep in
        let sizes = length-append history offline in
        let missed = length-missed redaction last history readable ∙ length-drop last history in
        (
          rep,
          refl,
          ground (arith, h, d.synced, missed),
          ground (arith, h, latest, sizes),
          ground (arith, h, d.balanced refl),
        )

    ended-Lost :
        (p : Option SyncError × State) (e : SyncError)
        → AllClean
        → Delivered begun history offline p
        → (ended redaction conflict_files outside missing p).outcome ≡ err e
        → Lost (ended redaction conflict_files outside missing p)
    ended-Lost (none, s') e clean d h = absurd (ground (arith, h))
    ended-Lost (some x, s') e clean d h = (
      d.sent,
      d.unsent,
      (d.split, d.partial (λ n. absurd (ground (arith, n))), refl, d.log (inr clean)),
    )

    -- A device that missed something syncs, its queue can be read and removed, and the lines of the log parse and are
    -- within the scanner's limit. If the sync succeeds, the log goes on with all events of the queue in their
    -- order, the queue is empty, the result counts the missed and the sent events, the latest version is the
    -- number of all events, and each conflict that was counted was resolved or is left to a person.
    pub initiate_sync_delivers :
        (r : SyncResult)
        → outside.remove_fails ≡ false
        → AllReadable redaction 0 history
        → Represents redaction s.events history
        → last < length history
        → peek redaction queue ≡ ok offline
        → synced.outcome ≡ ok r
        → Arrived synced r
    initiate_sync_delivers r removes readable rep behind queued =
        subst (λ (y : Synced redaction conflict_files outside). y.outcome ≡ ok r → Arrived y r)
          (sym (initiated removes readable rep behind queued))
          (ended-Arrived looped r (sync_events-Delivered 0 begun history offline rep) readable)

    -- If such a sync fails, where a write of an event writes its line or nothing and the index can be written: the queue
    -- is empty all the same, and the events from the one at which it failed on are neither in the log nor in the
    -- queue.
    pub initiate_sync_loses :
        (e : SyncError)
        → AllClean
        → outside.remove_fails ≡ false
        → AllReadable redaction 0 history
        → Represents redaction s.events history
        → last < length history
        → peek redaction queue ≡ ok offline
        → synced.outcome ≡ err e
        → Lost synced
    initiate_sync_loses e clean removes readable rep behind queued =
        subst (λ (y : Synced redaction conflict_files outside). y.outcome ≡ err e → Lost y)
          (sym (initiated removes readable rep behind queued))
          (ended-Lost looped e clean (sync_events-Delivered 0 begun history offline rep))
