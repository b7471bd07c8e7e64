-- ===== src/Collaboration/Tasks/Routing.antt =====
-- internal/core/collaboration/messaging.go: the router over any sequence of calls, for any storage that
-- reads back what it saved.
use mathlib.Core.Option.{some-injective}
use aps.Base.{
  ℕ, String, true, ◌≡◌, inl, inr, refl, Option, none, some, List, [], ◌∷◌, ◌++◌, Result, ok, err,
  find, All, ◌==◌, arith, eq_iff, Bool-cases, Option-cases, subst, sym, ap, ◌∙◌,
}
use aps.Collaboration.Tasks.{
  TaskStatus, is_terminal, TaskInfo, TaskError, TaskStorage, MessageRouter, dispatched, or_empty,
  send, get, update_status, commit_status, validate_transition, has_id, stamp, write_task,
}
use aps.Collaboration.Tasks.Updates.{
  validate_transition_forward, IsStamped, find-append-some, stamp-IsStamped, All-write_task,
  find-All, All-append-one, find-write_ended, stamp-id,
}

module _ (storage : TaskStorage) where
  open storage use {Store, load, save, load-save, load-save_other}

  abbrev Router : Type 0
  Router = MessageRouter storage

  abbrev after_send : Router → Result TaskError (TaskInfo × Router) → Router
  after_send mr (ok (t, mr')) = mr'
  after_send mr (err e) = mr

  abbrev after_update : Router → Result TaskError Router → Router
  after_update mr (ok mr') = mr'
  after_update mr (err e) = mr

  get_of_load :
      (mr : Router) (w task_id : String) (ts : List TaskInfo) {t : TaskInfo}
      → load mr.store w ≡ some ts
      → find (has_id task_id) ts ≡ some t
      → get storage mr w task_id ≡ ok t
  unfolding get
  get_of_load mr w task_id ts h k = ground arith

  load_of_get :
      (mr : Router) (w task_id : String) {t : TaskInfo}
      → get storage mr w task_id ≡ ok t
      → (ts : List TaskInfo) × (load mr.store w ≡ some ts) × (find (has_id task_id) ts ≡ some t)
  unfolding get
  load_of_get mr w task_id {t} h = elim (Option-cases (load mr.store w)) [
    | inl e ↦ absurd (ground arith)
    | inr (ts, e) ↦ (ts, e, ground arith)
  ]

  -- A save of one workspace's tasks keeps a task that the saved list has, and every other workspace's.
  get-save :
      (mr mr' : Router) (v w task_id : String) (ts : List TaskInfo) {t : TaskInfo}
      → save mr.store v ts ≡ some mr'.store
      → get storage mr w task_id ≡ ok t
      → (v ≡ w → find (has_id task_id) ts ≡ some t)
      → get storage mr' w task_id ≡ ok t
  get-save mr mr' v w task_id ts {t} saved h kept = elim (Bool-cases (v == w)) [
    | inl e ↦
        let same = (eq_iff v w).0 e in
        get_of_load mr' w task_id ts
          (subst (λ x. load mr'.store x ≡ some ts) same (load-save mr.store mr'.store v ts saved))
          (kept same)
    | inr e ↦
        let (old, loaded, found) = load_of_get mr w task_id h in
        get_of_load mr' w task_id old
          (load-save_other mr.store mr'.store v w ts saved (λ p. ground (arith, eq_iff v w))
            ∙ loaded)
          found
  ]

  send_saved :
      (now : ℕ) (id : String) (mr : Router) (w : String) (task : TaskInfo) {sent : TaskInfo}
      {mr' : Router}
      → send storage now id mr w task ≡ ok (sent, mr')
      → (sent ≡ dispatched storage now id w task)
        × (save mr.store w (or_empty (load mr.store w) ++ sent ∷ []) ≡ some mr'.store)
  unfolding send
  send_saved now id mr w task h =
      elim (Option-cases
        (save mr.store w (or_empty (load mr.store w) ++ dispatched storage now id w task ∷ []))) [
          | inl e ↦ ground arith
          | inr (s, e) ↦ ground arith
        ]

  commit_checked :
      (now : ℕ) (mr : Router) (w task_id : String) (status : TaskStatus) (output : Option String)
      (ts : List TaskInfo) (t : TaskInfo) {mr' : Router}
      → commit_status storage now mr w task_id status output ts t ≡ ok mr'
      → (validate_transition t.status status ≡ ok tt)
        × (save mr.store w (write_task task_id (stamp now status output) ts) ≡ some mr'.store)
  unfolding commit_status
  commit_checked now mr w task_id status output ts t h = ground arith

  -- What a status update that succeeds has found, checked and saved.
  record Updated (now : ℕ) (mr mr' : Router) (w task_id : String) (status : TaskStatus)
      (output : Option String) (ts : List TaskInfo) (t : TaskInfo) : Type 0 where
    loaded : load mr.store w ≡ some ts
    found : find (has_id task_id) ts ≡ some t
    checked : validate_transition t.status status ≡ ok tt
    saved : save mr.store w (write_task task_id (stamp now status output) ts) ≡ some mr'.store

  update_saved :
      (now : ℕ) (mr : Router) (w task_id : String) (status : TaskStatus) (output : Option String)
      {mr' : Router}
      → update_status storage now mr w task_id status output ≡ ok mr'
      → (ts : List TaskInfo) × (t : TaskInfo) × Updated now mr mr' w task_id status output ts t
  unfolding update_status
  update_saved now mr w task_id status output {mr'} h = elim (Option-cases (load mr.store w)) [
    | inl e ↦ absurd (ground arith)
    | inr (ts, e) ↦ elim (Option-cases (find (has_id task_id) ts)) [
      | inl n ↦ absurd (ground arith)
      | inr (t, f) ↦ (
        ts,
        t,
        record {
          loaded = e;
          found = f;
          checked =
              (commit_checked now mr w task_id status output ts t {mr' = mr'} (ground arith)).0;
          saved = (commit_checked now mr w task_id status output ts t {mr' = mr'} (ground arith)).1;
        },
      )
    ]
  ]

  kept_by_send :
      (now : ℕ) (id : String) (mr mr' : Router) (v : String) (task sent : TaskInfo)
      (w task_id : String) {t : TaskInfo}
      → get storage mr w task_id ≡ ok t
      → send storage now id mr v task ≡ ok (sent, mr')
      → get storage mr' w task_id ≡ ok t
  kept_by_send now id mr mr' v task sent w task_id {t} h e =
      let (ts, loaded, found) = load_of_get mr w task_id h in
      let saved = (send_saved now id mr v task e).1 in
      get-save mr mr' v w task_id (or_empty (load mr.store v) ++ sent ∷ []) saved h λ same.
        subst (λ x. find (has_id task_id) (or_empty (load mr.store x) ++ sent ∷ []) ≡ some t)
          (sym same) (rw loaded (find-append-some task_id ts sent found))

  kept_by_update :
      (now : ℕ) (mr mr' : Router) (v other : String) (status : TaskStatus) (output : Option String)
      (w task_id : String) {t : TaskInfo}
      → is_terminal t.status ≡ true
      → get storage mr w task_id ≡ ok t
      → update_status storage now mr v other status output ≡ ok mr'
      → get storage mr' w task_id ≡ ok t
  kept_by_update now mr mr' v other status output w task_id {t} done h e =
      let (ts, u, up) = update_saved now mr v other status output e in
      let (old, loaded, found) = load_of_get mr w task_id h in
      get-save mr mr' v w task_id (write_task other (stamp now status output) ts) up.saved h λ same.
        let again = some-injective _ _ (sym up.loaded ∙ ap (load mr.store) same ∙ loaded) in
        find-write_ended other task_id (stamp now status output) (stamp-id now status output) ts
          up.found (validate_transition_forward u.status status up.checked).0
          (subst (λ l. find (has_id task_id) l ≡ some t) (sym again) found) done

  -- A call of the router by any agent, in any workspace.
  pub data Call : Type 0 where
    send_call : ℕ → String → String → TaskInfo → Call
    status_call : ℕ → String → String → TaskStatus → Option String → Call

  -- A call that returns an error leaves the stored tasks as they were.
  unfoldable pub apply_call : Router → Call → Router
  apply_call mr (send_call now id w task) = after_send mr (send storage now id mr w task)
  apply_call mr (status_call now w task_id status output) =
      after_update mr (update_status storage now mr w task_id status output)

  unfoldable pub run_calls : Router → List Call → Router
  run_calls mr [] = mr
  run_calls mr (c ∷ rest) = run_calls (apply_call mr c) rest

  after_send_elim :
      (P : Router → Type 0) (mr : Router) (r : Result TaskError (TaskInfo × Router))
      → P mr
      → ((t : TaskInfo) (mr' : Router) → r ≡ ok (t, mr') → P mr')
      → P (after_send mr r)
  after_send_elim P mr (ok (t, mr')) p f = f t mr' refl
  after_send_elim P mr (err e) p f = p

  after_update_elim :
      (P : Router → Type 0) (mr : Router) (r : Result TaskError Router)
      → P mr
      → ((mr' : Router) → r ≡ ok mr' → P mr')
      → P (after_update mr r)
  after_update_elim P mr (ok mr') p f = f mr' refl
  after_update_elim P mr (err e) p f = p

  kept_by_call :
      (mr : Router) (c : Call) (w task_id : String) {t : TaskInfo}
      → is_terminal t.status ≡ true
      → get storage mr w task_id ≡ ok t
      → get storage (apply_call mr c) w task_id ≡ ok t
  unfolding apply_call
  kept_by_call mr (send_call now id v task) w task_id {t} done h =
      after_send_elim (λ m. get storage m w task_id ≡ ok t) mr (send storage now id mr v task) h
        λ sent mr' e. kept_by_send now id mr mr' v task sent w task_id h e
  kept_by_call mr (status_call now v other status output) w task_id {t} done h =
      after_update_elim (λ m. get storage m w task_id ≡ ok t) mr
        (update_status storage now mr v other status output) h
        λ mr' e. kept_by_update now mr mr' v other status output w task_id done h e

  -- A task that is completed, failed or cancelled is final: whatever calls follow, in whatever
  -- workspaces, and whether they succeed or fail, reading it gives the same task.
  pub finished_final :
      (mr : Router) (calls : List Call) (w task_id : String) {t : TaskInfo}
      → is_terminal t.status ≡ true
      → get storage mr w task_id ≡ ok t
      → get storage (run_calls mr calls) w task_id ≡ ok t
  unfolding run_calls
  finished_final mr [] w task_id done h = h
  finished_final mr (c ∷ rest) w task_id {t} done h =
      finished_final (apply_call mr c) rest w task_id done (kept_by_call mr c w task_id done h)

  -- Every task that the storage holds for a workspace carries an end time exactly if it has ended.
  abbrev pub AllStamped : Router → Type 0
  AllStamped mr = (w : String) (ts : List TaskInfo) → load mr.store w ≡ some ts → All IsStamped ts

  -- A caller of `Send` leaves the end time empty.
  abbrev pub IsFresh : Call → Type 0
  IsFresh (send_call now id w task) = task.completed_at ≡ none
  IsFresh (status_call now w task_id status output) = Unit

  stamped_save :
      (mr mr' : Router) (v : String) (ts : List TaskInfo)
      → save mr.store v ts ≡ some mr'.store
      → All IsStamped ts
      → AllStamped mr
      → AllStamped mr'
  stamped_save mr mr' v ts saved a h w us loaded = elim (Bool-cases (v == w)) [
    | inl e ↦
        let same = (eq_iff v w).0 e in
        let now_there = load-save mr.store mr'.store v ts saved in
        subst (All IsStamped)
          (some-injective _ _ (sym now_there ∙ ap (load mr'.store) same ∙ loaded)) a
    | inr e ↦ h w us (
        sym (load-save_other mr.store mr'.store v w ts saved (λ p. ground (arith, eq_iff v w)))
        ∙ loaded)
  ]

  IsStamped-or_empty :
      (mr : Router) (v : String) → AllStamped mr → All IsStamped (or_empty (load mr.store v))
  IsStamped-or_empty mr v h = elim (Option-cases (load mr.store v)) [
    | inl e ↦ rw e tt
    | inr (ts, e) ↦ rw e (h v ts e)
  ]

  stamped_call : (mr : Router) (c : Call) → IsFresh c → AllStamped mr → AllStamped (apply_call mr c)
  unfolding apply_call
  stamped_call mr (send_call now id v task) fresh h =
      after_send_elim AllStamped mr (send storage now id mr v task) h λ sent mr' e.
        let (made, saved) = send_saved now id mr v task e in
        stamped_save mr mr' v (or_empty (load mr.store v) ++ sent ∷ []) saved
          (All-append-one (or_empty (load mr.store v)) sent (IsStamped-or_empty mr v h)
            (ground (arith, made)))
          h
  stamped_call mr (status_call now v task_id status output) fresh h =
      after_update_elim AllStamped mr (update_status storage now mr v task_id status output) h
        λ mr' e.
          let (ts, t, up) = update_saved now mr v task_id status output e in
          let before = h v ts up.loaded in
          stamped_save mr mr' v (write_task task_id (stamp now status output) ts) up.saved
            (All-write_task task_id (stamp now status output) ts up.found
              (stamp-IsStamped now status output t (find-All task_id ts up.found before)
                (validate_transition_forward t.status status up.checked).0)
              before)
            h

  -- If every stored task carries an end time exactly if it is completed, failed or cancelled, then so it
  -- is after any calls of the router, provided that the tasks handed to `Send` carry none.
  pub run_calls-AllStamped :
      (mr : Router) (calls : List Call)
      → All IsFresh calls
      → AllStamped mr
      → AllStamped (run_calls mr calls)
  unfolding run_calls
  run_calls-AllStamped mr [] fresh h = h
  run_calls-AllStamped mr (c ∷ rest) fresh h =
      run_calls-AllStamped (apply_call mr c) rest fresh.1 (stamped_call mr c fresh.0 h)

  -- Where the stored tasks cannot be read, a `Send` that succeeds replaces them all by the new task.
  pub send_replaces_unreadable :
      (now : ℕ) (id : String) (mr : Router) (w : String) (task : TaskInfo) {sent : TaskInfo}
      {mr' : Router}
      → load mr.store w ≡ none
      → send storage now id mr w task ≡ ok (sent, mr')
      → load mr'.store w ≡ some (sent ∷ [])
  send_replaces_unreadable now id mr w task {sent} {mr'} unreadable h =
      let saved = (send_saved now id mr w task h).1 in
      load-save mr.store mr'.store w (sent ∷ []) (rw unreadable at saved)
