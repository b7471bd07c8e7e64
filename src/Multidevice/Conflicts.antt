-- ===== src/Multidevice/Conflicts.antt =====
-- internal/core/multidevice/conflict_detector.go, lww_resolver.go and resolution_manager.go, with the events of
-- events.go and the lookup of event_store.go: two devices wrote to one resource, and which write stays. The
-- files of the conflicts are reached through `ConflictFiles`; the events of a workspace's log are given as the
-- list that is read from it, `none` where the read fails.
pub mod Winner
pub mod Detection
pub mod Resolution
pub mod Tests
use Prim.Native.String.{◌++◌ as text_append}
use aps.Base.{
  ℕ, ◌+◌, ◌-◌, String, Bool, true, false, ◌&&◌, ◌||◌, not, Option, none, some, List, [], ◌∷◌, ◌++◌,
  Result, ok, err, keep, Dict, lookup, ltb, leb, nat_eq, text_gtb, before_dot, ◌==◌, if◌then◌else◌,
  ◌≡◌, ◌>>=◌, ◌>>◌,
}

-- A value of a JSON payload: a text, or another one by what `%v` prints of it.
pub data Value : Type 0 where
  text printed : String → Value

abbrev show_value : Value → String
show_value (text s) = s
show_value (printed s) = s

pub record WorkspaceEvent : Type 0 where
  pub id : String
  pub workspace_id : String
  pub device_id : String
  pub timestamp : ℕ
  pub event_type : String
  pub version : ℕ
  pub payload : Dict Value
  pub caused_by : String
  pub signature : String

-- `Category`
abbrev pub category : String → String
category event_type = before_dot event_type

abbrev named_resource : Option Value → String
named_resource (some (text s)) = s
named_resource _ = ""

abbrev by_name : WorkspaceEvent → Option Value → String
by_name event none = ""
by_name event (some v) = text_append (category event.event_type) (text_append ":" (show_value v))

abbrev by_id : WorkspaceEvent → Option Value → String
by_id event none = by_name event (lookup "name" event.payload)
by_id event (some v) = text_append (category event.event_type) (text_append ":" (show_value v))

-- `extractResourceFromEvent`
unfoldable pub extract_resource : WorkspaceEvent → String
extract_resource event =
    let named = named_resource (lookup "resource" event.payload) in
    if named == "" then by_id event (lookup "id" event.payload) else named

-- `QueryByResource`
unfoldable pub query_by_resource : List WorkspaceEvent → String → String → List WorkspaceEvent
query_by_resource events workspace_id resource =
    keep (λ e. (e.workspace_id == workspace_id) && (extract_resource e == resource)) events

pub data ConflictType : Type 0 where
  concurrent_write ordering semantic metadata : ConflictType
  odd_type : String → ConflictType

pub data ConflictStatus : Type 0 where
  pending auto_resolved manual resolved : ConflictStatus
  odd_status : String → ConflictStatus

pub record ConflictResolution : Type 0 where
  pub strategy : String
  pub winner_event : String
  pub result : Dict Value
  pub resolved_by : String

pub record Conflict : Type 0 where
  pub id : String
  pub workspace_id : String
  pub conflict_type : ConflictType
  pub status : ConflictStatus
  pub resource : String
  pub events : List WorkspaceEvent
  pub detected_at : ℕ
  pub resolved_at : Option ℕ
  pub resolution : Option ConflictResolution

abbrev pub concurrency_window : ℕ
concurrency_window = 5000000000

-- `isOverlapping`
unfoldable pub is_overlapping : WorkspaceEvent → WorkspaceEvent → Bool
is_overlapping a b =
    let time_diff = (a.timestamp - b.timestamp) + (b.timestamp - a.timestamp) in
    if nat_eq a.version b.version
    then true
    else ltb time_diff concurrency_window && not (a.device_id == b.device_id)

-- The loop of `Detect`: does the stored event conflict with the incoming one?
unfoldable pub conflicts_with : WorkspaceEvent → WorkspaceEvent → Bool
conflicts_with event stored =
    not (stored.device_id == event.device_id)
    && (leb event.version stored.version || is_overlapping stored event)

-- `classifyConflict`
unfoldable pub classify_conflict : WorkspaceEvent → List WorkspaceEvent → ConflictType
classify_conflict incoming [] = concurrent_write
classify_conflict incoming (e ∷ existing) =
    let rest = classify_conflict incoming existing in
    if not (category incoming.event_type == category e.event_type)
    then semantic
    else if (incoming.event_type == "device.permissions_changed")
        || (incoming.event_type == "workspace.config_changed")
    then metadata
    else if ltb incoming.version e.version
    then ordering
    else rest

pub data ConflictError : Type 0 where
  query_failed no_events unknown_type save_failed load_failed already_resolved : ConflictError

abbrev pub reported : ℕ → String → WorkspaceEvent → String → List WorkspaceEvent → Option Conflict
reported now id event resource [] = none
reported now id event resource (c ∷ cs) = some (record {
  id = id;
  workspace_id = event.workspace_id;
  conflict_type = classify_conflict event (c ∷ cs);
  status = pending;
  resource = resource;
  events = (c ∷ cs) ++ event ∷ [];
  detected_at = now;
  resolved_at = none;
  resolution = none;
})

-- `Detect`, for the new conflict's ID `id`
unfoldable pub detect :
    ℕ
    → String
    → Option (List WorkspaceEvent)
    → WorkspaceEvent
    → Result ConflictError (Option Conflict)
detect now id log event =
    let resource = extract_resource event in
    if resource == "" then ok none else elim log [
      | none ↦ err query_failed
      | some stored ↦ ok (
          reported now id event resource
            (keep (conflicts_with event) (query_by_resource stored event.workspace_id resource)))
    ]

-- The test of the loop of the last-write-wins resolver: does `event` take the place of `winner`?
unfoldable pub beats : WorkspaceEvent → WorkspaceEvent → Bool
beats event winner =
    ltb winner.timestamp event.timestamp
    || (nat_eq event.timestamp winner.timestamp && text_gtb event.device_id winner.device_id)

-- That loop.
unfoldable pub winner_of : WorkspaceEvent → List WorkspaceEvent → WorkspaceEvent
winner_of winner [] = winner
winner_of winner (event ∷ events) = winner_of (if beats event winner then event else winner) events

abbrev pub resolution_by : WorkspaceEvent → ConflictResolution
resolution_by winner = record {
  strategy = "lww";
  winner_event = winner.id;
  result = winner.payload;
  resolved_by = "auto";
}

abbrev pub settle : ℕ → Conflict → List WorkspaceEvent → Result ConflictError Conflict
settle now conflict [] = err no_events
settle now conflict (e ∷ events) = ok (record conflict {
  status = auto_resolved;
  resolved_at = some now;
  resolution = some (resolution_by (winner_of e events));
})

-- `(r *LWWResolver) Resolve`: the conflict after it
unfoldable pub resolve_lww : ℕ → Conflict → Result ConflictError Conflict
resolve_lww now conflict = settle now conflict conflict.events

-- `(m *ResolutionManager) ResolveConflict` up to the save
unfoldable pub decide : ℕ → Conflict → ConflictType → Result ConflictError Conflict
decide now conflict concurrent_write = resolve_lww now conflict
decide now conflict metadata = resolve_lww now conflict
decide now conflict ordering = resolve_lww now conflict
decide now conflict semantic = ok (record conflict { status = manual })
decide now conflict (odd_type s) = err unknown_type

-- The files of the conflicts: a conflict that was saved is loaded by its ID.
pub record ConflictFiles : Type 1 where
  pub Files : Type 0
  pub load : Files → String → Option Conflict
  pub save : Files → Conflict → Option Files
  pub load-save :
      (s s' : Files) (conflict : Conflict)
      → save s conflict ≡ some s'
      → load s' conflict.id ≡ some conflict

abbrev pub is_closed : ConflictStatus → Bool
is_closed resolved = true
is_closed auto_resolved = true
is_closed _ = false

abbrev pub saved : {A : Type 0} → Option A → Result ConflictError A
saved none = err save_failed
saved (some s) = ok s

module _ (files : ConflictFiles) where
  -- `ResolveConflict`
  unfoldable pub resolve_conflict : ℕ → files.Files → Conflict → Result ConflictError files.Files
  resolve_conflict now s conflict = do
    later ← decide now conflict conflict.conflict_type
    saved (files.save s later)

  -- What `ResolveManually` writes.
  abbrev pub settled_by_hand : ℕ → String → Dict Value → Conflict → Conflict
  settled_by_hand now strategy choice conflict = record conflict {
    status = resolved;
    resolved_at = some now;
    resolution = some (record {
      strategy = strategy;
      winner_event = "";
      result = choice;
      resolved_by = "manual";
    });
  }

  -- `ResolveManually`
  unfoldable pub resolve_manually :
      ℕ → files.Files → String → String → Dict Value → Result ConflictError files.Files
  resolve_manually now s conflict_id strategy choice = elim (files.load s conflict_id) [
    | none ↦ err load_failed
    | some conflict ↦
        if is_closed conflict.status
        then err already_resolved
        else saved (files.save s (settled_by_hand now strategy choice conflict))
  ]
