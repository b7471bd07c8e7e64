-- ===== src/Multidevice/Conflicts/Detection.antt =====
-- internal/core/multidevice/conflict_detector.go: when a conflict is reported, and what it holds.
use aps.Base.{
  ℕ, ◌+◌, ◌≤◌, ◌<◌, String, Bool, true, false, ◌&&◌, ◌≡◌, ◌≢◌, ◌↔◌, ◌⊎◌, refl, Option, none, some,
  List, [], ◌∷◌, Result, ok, keep, All, ◌==◌, arith, eq_iff,
}
use aps.Multidevice.Conflicts.{
  WorkspaceEvent, Conflict, ConflictError, extract_resource, query_by_resource, concurrency_window,
  is_overlapping, conflicts_with, detect, reported,
}

-- What makes a stored event conflict: the same workspace and resource, another device, and a version that is not
-- below the incoming one or a time within five seconds of it.
abbrev pub Clashes : WorkspaceEvent → WorkspaceEvent → Type 0
Clashes event stored =
    (stored.workspace_id ≡ event.workspace_id)
    × (extract_resource stored ≡ extract_resource event)
    × (stored.device_id ≢ event.device_id)
    × ((event.version ≤ stored.version)
        ⊎ ((stored.timestamp < event.timestamp + concurrency_window)
            × (event.timestamp < stored.timestamp + concurrency_window)))

abbrev clash_test : WorkspaceEvent → WorkspaceEvent → Bool
clash_test event stored =
    ((stored.workspace_id == event.workspace_id)
      && (extract_resource stored == extract_resource event))
    && conflicts_with event stored

clash_iff :
    (event stored : WorkspaceEvent) → (clash_test event stored ≡ true) ↔ Clashes event stored
unfolding conflicts_with is_overlapping
clash_iff event stored = ground (
  arith,
  eq_iff stored.workspace_id event.workspace_id,
  eq_iff (extract_resource stored) (extract_resource event),
  eq_iff stored.device_id event.device_id,
)

keep-keep :
    (p q : WorkspaceEvent → Bool) (xs : List WorkspaceEvent)
    → keep p (keep q xs) ≡ keep (λ x. q x && p x) xs
keep-keep p q [] = refl
keep-keep p q (x ∷ xs) = ground (arith, keep-keep p q xs)

found-detect :
    (now : ℕ) (id : String) (stored : List WorkspaceEvent) (event : WorkspaceEvent)
    → (extract_resource event == "") ≡ false
    → detect now id (some stored) event
      ≡ ok (reported now id event (extract_resource event) (keep (clash_test event) stored))
unfolding detect query_by_resource
found-detect now id stored event named =
    let shown =
      keep-keep (conflicts_with event)
        (λ e.
          (e.workspace_id == event.workspace_id) && (extract_resource e == extract_resource event))
        stored in
    ground (arith, named, shown)

keep-nil_iff :
    (event : WorkspaceEvent) (xs : List WorkspaceEvent)
    → (keep (clash_test event) xs ≡ []) ↔ All (λ e. ¬ (Clashes event e)) xs
keep-nil_iff event [] = (λ _. tt, λ _. refl)
keep-nil_iff event (x ∷ xs) = ground (arith, clash_iff event x, keep-nil_iff event xs)

reported_iff :
    (now : ℕ) (id : String) (event : WorkspaceEvent) (resource : String) (xs : List WorkspaceEvent)
    → (◌≡◌ {A = Result ConflictError (Option Conflict)}
        (ok (reported now id event resource xs))
        (ok none))
      ↔ (xs ≡ [])
reported_iff now id event resource [] = (λ _. refl, λ _. refl)
reported_iff now id event resource (x ∷ xs) = ground arith

-- An event with a resource, against a log that can be read, reports no conflict exactly where it clashes
-- with no stored event.
pub detect-none_iff :
    (now : ℕ) (id : String) (stored : List WorkspaceEvent) (event : WorkspaceEvent)
    → extract_resource event ≢ ""
    → (detect now id (some stored) event ≡ ok none) ↔ All (λ e. ¬ (Clashes event e)) stored
detect-none_iff now id stored event named =
    let clashing = keep (clash_test event) stored in
    ground (
      arith,
      eq_iff (extract_resource event) "",
      found-detect now id stored event,
      reported_iff now id event (extract_resource event) clashing,
      keep-nil_iff event stored,
    )
