-- ===== src/Multidevice/Sync/Settlement.antt =====
-- internal/core/multidevice/sync_manager.go: what the detection and the resolution of one event leave alone, and
-- what they count.
use aps.Base.{ℕ, ◌+◌, ◌≡◌, ◌⊎◌, inl, inr, refl, Option, none, some, Result, ok, err, arith}
use aps.Multidevice.Conflicts.{
  WorkspaceEvent, ConflictType, concurrent_write, ordering, semantic, metadata, odd_type, detect,
  auto_resolved, manual, Conflict, ConflictError, ConflictFiles, decide,
}
use aps.Multidevice.Conflicts.Resolution.{HasStatusAfter, decide-id}
use aps.Multidevice.Events.{read_all, Redaction}
use aps.Multidevice.Sync.{
  Outside, SyncResult, counted, SyncState, with_decided, with_detected, settle_event,
}

-- Every conflict that was counted was resolved or is left to a person.
abbrev pub IsBalanced : SyncResult → Type 0
IsBalanced r = r.conflicts_detected ≡ r.auto + r.manual_pending

status_known :
    (later : Conflict) (type : ConflictType)
    → HasStatusAfter type later
    → (later.status ≡ auto_resolved) ⊎ (later.status ≡ manual)
status_known later semantic h = inr h
status_known later concurrent_write h = inl h
status_known later ordering h = inl h
status_known later metadata h = inl h
status_known later (odd_type s) h = inl h

counted-IsBalanced :
    (later : Conflict) (r : SyncResult)
    → (later.status ≡ auto_resolved) ⊎ (later.status ≡ manual)
    → IsBalanced r
    → IsBalanced (counted later r)
counted-IsBalanced later r h b = ground (arith, h, b)

events_synced-counted :
    (later : Conflict) (r : SyncResult) → (counted later r).events_synced ≡ r.events_synced
events_synced-counted later r = ground arith

module _ (redaction : Redaction) (conflict_files : ConflictFiles) (outside : Outside) where
  abbrev pub State : Type 0
  State = SyncState redaction conflict_files outside

  -- What the detection and the resolution of one event leave alone.
  pub record Keeps (s s' : State) : Type 0 where
    pub events : s'.events ≡ s.events
    pub synced : s'.result.events_synced ≡ s.result.events_synced
    pub balanced : IsBalanced s.result → IsBalanced s'.result

  with_decided-Keeps :
      (now : ℕ) (s s' : State) (conflict : Conflict) (decided : Result ConflictError Conflict)
      → decide now conflict conflict.conflict_type ≡ decided
      → with_decided redaction conflict_files outside s decided ≡ ok s'
      → Keeps s s'
  with_decided-Keeps now s s' conflict (err e) d h = absurd (ground (arith, h))
  with_decided-Keeps now s s' conflict (ok later) d h =
      let known =
        status_known later conflict.conflict_type
          (decide-id now conflict later conflict.conflict_type d).1 in
      record {
        events = ground (arith, h);
        synced = ground (arith, h, events_synced-counted later s.result);
        balanced = λ b. ground (arith, h, counted-IsBalanced later s.result known b);
      }

  with_detected-Keeps :
      (now : ℕ) (s s' : State) (detected : Result ConflictError (Option Conflict))
      → with_detected redaction conflict_files outside now s detected ≡ ok s'
      → Keeps s s'
  with_detected-Keeps now s s' (err e) h = absurd (ground (arith, h))
  with_detected-Keeps now s s' (ok none) h = record {
    events = ground (arith, h);
    synced = ground (arith, h);
    balanced = λ b. ground (arith, h, b);
  }
  with_detected-Keeps now s s' (ok (some conflict)) h =
      with_decided-Keeps now s s' conflict (decide now conflict conflict.conflict_type) refl h

  -- The whole step.
  pub settle_event-Keeps :
      (turn : ℕ) (s s' : State) (event : WorkspaceEvent)
      → settle_event redaction conflict_files outside turn s event ≡ ok s'
      → Keeps s s'
  unfolding settle_event
  settle_event-Keeps turn s s' event h =
      with_detected-Keeps (outside.now turn) s s'
        (detect (outside.now turn) (outside.fresh_id turn) (read_all redaction s.events) event) h
