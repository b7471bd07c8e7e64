-- ===== src/Multidevice/Conflicts/Resolution.antt =====
-- internal/core/multidevice/resolution_manager.go: a conflict is settled once.
use aps.Base.{
  ℕ, String, ◌≡◌, refl, Option, none, some, List, [], ◌∷◌, Result, ok, err, Dict, arith, ◌>>=◌,
  subst,
}
use aps.Multidevice.Conflicts.{
  Value, WorkspaceEvent, ConflictType, concurrent_write, ordering, semantic, metadata, odd_type,
  auto_resolved, manual, Conflict, ConflictError, already_resolved, settle, resolve_lww, decide,
  ConflictFiles, saved, resolve_conflict, settled_by_hand, resolve_manually,
}

settle-id :
    (now : ℕ) (conflict later : Conflict) (events : List WorkspaceEvent)
    → settle now conflict events ≡ ok later
    → (later.id ≡ conflict.id) × (later.status ≡ auto_resolved)
settle-id now conflict later [] h = ground (arith, h)
settle-id now conflict later (e ∷ events) h = ground (arith, h)

-- The status that each type of conflict is given.
abbrev pub HasStatusAfter : ConflictType → Conflict → Type 0
HasStatusAfter semantic later = later.status ≡ manual
HasStatusAfter _ later = later.status ≡ auto_resolved

-- What a decision keeps and sets.
pub decide-id :
    (now : ℕ) (conflict later : Conflict) (type : ConflictType)
    → decide now conflict type ≡ ok later
    → (later.id ≡ conflict.id) × HasStatusAfter type later
unfolding decide resolve_lww
decide-id now conflict later concurrent_write h = settle-id now conflict later conflict.events h
decide-id now conflict later metadata h = settle-id now conflict later conflict.events h
decide-id now conflict later ordering h = settle-id now conflict later conflict.events h
decide-id now conflict later semantic h = ground (arith, h)
decide-id now conflict later (odd_type s) h = absurd (ground (arith, h))

module _ (files : ConflictFiles) where
  open files use {Files, load, save, load-save}

  saved_iff : (o : Option Files) (s : Files) → saved o ≡ ok s → o ≡ some s
  saved_iff none s h = absurd (ground (arith, h))
  saved_iff (some x) s h = ground (arith, h)

  stored-save :
      (s s' : Files) (later : Conflict) (id : String)
      → saved (save s later) ≡ ok s'
      → later.id ≡ id
      → load s' id ≡ some later
  stored-save s s' later id h same =
      subst (λ i. load s' i ≡ some later) same
        (load-save s s' later (saved_iff (save s later) s' h))

  stored-decided :
      (now : ℕ) (s s' : Files) (conflict : Conflict) (decided : Result ConflictError Conflict)
      → decide now conflict conflict.conflict_type ≡ decided
      → (decided >>= λ later. saved (save s later)) ≡ ok s'
      → (later : Conflict) × ((load s' conflict.id ≡ some later)
          × HasStatusAfter conflict.conflict_type later)
  stored-decided now s s' conflict (err e) d h = absurd (ground (arith, h))
  stored-decided now s s' conflict (ok later) d h =
      let known = decide-id now conflict later conflict.conflict_type d in
      (later, (stored-save s s' later conflict.id h known.0, known.1))

  -- After ResolveConflict the conflict that is stored under the ID is closed automatically, or waits for a person
  -- if it is a semantic one.
  pub resolve_conflict_stores :
      (now : ℕ) (s s' : Files) (conflict : Conflict)
      → resolve_conflict files now s conflict ≡ ok s'
      → (later : Conflict) × ((load s' conflict.id ≡ some later)
          × HasStatusAfter conflict.conflict_type later)
  unfolding resolve_conflict
  resolve_conflict_stores now s s' conflict h =
      stored-decided now s s' conflict (decide now conflict conflict.conflict_type) refl h

  -- A conflict that was settled by hand cannot be settled by hand again.
  pub resolve_manually_once :
      (now afterwards : ℕ) (s s' : Files) (conflict : Conflict) (strategy other : String)
      (choice choice' : Dict Value)
      → load s conflict.id ≡ some conflict
      → resolve_manually files now s conflict.id strategy choice ≡ ok s'
      → resolve_manually files afterwards s' conflict.id other choice' ≡ err already_resolved
  unfolding resolve_manually
  resolve_manually_once now afterwards s s' conflict strategy other choice choice' found h =
      let by_hand = settled_by_hand files now strategy choice conflict in
      ground (arith, found, h, stored-save s s' by_hand conflict.id)
