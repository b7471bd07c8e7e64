-- ===== src/Collaboration/Tasks.antt =====
-- internal/core/collaboration/messaging.go: the router of tasks between agents, over the task part of the
-- `Storage` interface (interface.go). `Send` and `UpdateStatus` return the new router; the audit
-- events that they hand to the log, whose own error is ignored, are kept in order. `uuid.New()` for
-- the audit entries is left out, `id` and `now` are arguments.
pub mod Updates
pub mod Routing
pub mod Tests
use Prim.Native.String.{◌++◌ as text_append}
use aps.Base.{
  ℕ, String, Bool, true, false, not, ◌&&◌, ◌||◌, ◌≡◌, ◌≢◌, Option, none, some, List, [], ◌∷◌, ◌++◌,
  Result, ok, err, find, any, keep, Dict, lookup, nat_eq, ◌==◌, if◌then◌else◌, ◌>>=◌, ◌>>◌,
  refuse_if,
}
use aps.Collaboration.Paging.{paginate}

pub data TaskStatus : Type 0 where
  submitted working completed failed cancelled : TaskStatus
  undefined : String → TaskStatus

-- `string(status)`
unfoldable pub status_text : TaskStatus → String
status_text submitted = "submitted"
status_text working = "working"
status_text completed = "completed"
status_text failed = "failed"
status_text cancelled = "cancelled"
status_text (undefined s) = s

-- `(s TaskStatus) Validate() == nil`
abbrev pub is_valid_status : TaskStatus → Bool
is_valid_status (undefined s) = false
is_valid_status _ = true

-- `(s TaskStatus) IsTerminal()`
abbrev pub is_terminal : TaskStatus → Bool
is_terminal completed = true
is_terminal failed = true
is_terminal cancelled = true
is_terminal _ = false

-- The JSON value that a `json.RawMessage` holds, by its compact text. SaveTasks indents raw messages anew
-- (json.MarshalIndent), so their bytes change when they are stored and their values do not: the model has the values.
abbrev pub JsonValue : Type 0
JsonValue = String

-- `input` and `output` are `none` where the raw message is empty: `omitempty` leaves it out of the file.
pub record TaskInfo : Type 0 where
  pub id : String
  pub workspace_id : String
  pub sender_id : String
  pub recipient_id : String
  pub action : String
  pub input : Option JsonValue
  pub output : Option JsonValue
  pub status : TaskStatus
  pub error : String
  pub dependencies : List String
  pub created_at : ℕ
  pub updated_at : ℕ
  pub completed_at : Option ℕ
  pub timeout : ℕ

pub data TaskError : Type 0 where
  action_required recipient_required sender_required : TaskError
  load_failed save_failed not_found invalid_status : TaskError
  from_terminal unknown_status bad_transition : TaskError

-- The task part of `Storage`: `load` gives `none` where `LoadTasks` returns an error, and `save` where
-- `SaveTasks` does. What was saved is read back, raw messages by their values and not their bytes, and other
-- workspaces are left alone.
pub record TaskStorage : Type 1 where
  pub Store : Type 0
  pub load : Store → String → Option (List TaskInfo)
  pub save : Store → String → List TaskInfo → Option Store
  pub load-save :
      (s s' : Store) (w : String) (ts : List TaskInfo) → save s w ts ≡ some s' → load s' w ≡ some ts
  pub load-save_other :
      (s s' : Store) (w v : String) (ts : List TaskInfo)
      → save s w ts ≡ some s'
      → w ≢ v
      → load s' v ≡ load s v

-- `slices.Contains(valid[from], to)`, for the map of `validateTransition`.
abbrev allowed : TaskStatus → TaskStatus → Bool
allowed submitted working = true
allowed submitted cancelled = true
allowed working completed = true
allowed working failed = true
allowed working cancelled = true
allowed _ _ = false

abbrev is_known : TaskStatus → Bool
is_known submitted = true
is_known working = true
is_known _ = false

-- `validateTransition`
unfoldable pub validate_transition : TaskStatus → TaskStatus → Result TaskError (Unit {0})
validate_transition from to = do
  refuse_if (is_terminal from) from_terminal
  refuse_if (not (is_known from)) unknown_status
  refuse_if (not (allowed from to)) bad_transition

abbrev pub has_id : String → TaskInfo → Bool
has_id task_id t = t.id == task_id

-- The writes of `UpdateStatus` through `task := &tasks[idx]`.
unfoldable pub stamp : ℕ → TaskStatus → Option String → TaskInfo → TaskInfo
stamp now status output t = record t {
  status = status;
  updated_at = now;
  output = elim output [ none ↦ t.output | some o ↦ some o ];
  completed_at = if is_terminal status then some now else t.completed_at;
}

-- A write at the first task with the ID.
unfoldable pub write_task : String → (TaskInfo → TaskInfo) → List TaskInfo → List TaskInfo
write_task task_id f [] = []
write_task task_id f (t ∷ rest) =
    let later = write_task task_id f rest in if has_id task_id t then f t ∷ rest else t ∷ later

-- The event that is handed to the audit log.
pub record AuditEntry : Type 0 where
  pub workspace_id : String
  pub actor : String
  pub event : String
  pub resource : String
  pub timestamp : ℕ

-- The names by which a listing filters (`ListOptions.Filters`), and its window.
pub record ListOptions : Type 0 where
  pub limit : ℕ
  pub offset : ℕ
  pub filters : Dict String

abbrev passes : Option String → (String → Bool) → Bool
passes none test = true
passes (some wanted) test = test wanted

-- One turn of the loop of `filterTasks`.
unfoldable pub matches : Dict String → TaskInfo → Bool
matches filters t =
    passes (lookup "status" filters) (λ s. status_text t.status == s)
    && (passes (lookup "agent" filters) (λ a. t.sender_id == a || t.recipient_id == a)
        && passes (lookup "action" filters) (λ a. t.action == a))

-- `filterTasks`
unfoldable pub filter_tasks : List TaskInfo → Dict String → List TaskInfo
filter_tasks tasks [] = tasks
filter_tasks tasks filters = keep (matches filters) tasks

abbrev pub five_minutes : ℕ
five_minutes = 300000000000

abbrev or_empty : Option (List TaskInfo) → List TaskInfo
or_empty none = []
or_empty (some ts) = ts

module _ (storage : TaskStorage) where
  open storage use {Store, load, save}

  pub record MessageRouter : Type 0 where
    pub store : Store
    pub audit : List AuditEntry

  abbrev record_audit : MessageRouter → Store → AuditEntry → MessageRouter
  record_audit mr s e = record { store = s; audit = mr.audit ++ e ∷ [] }

  -- The task that `Send` stores.
  abbrev pub dispatched : ℕ → String → String → TaskInfo → TaskInfo
  dispatched now id workspace_id task = record task {
    id = id;
    workspace_id = workspace_id;
    status = submitted;
    created_at = now;
    updated_at = now;
    timeout = if nat_eq task.timeout 0 then five_minutes else task.timeout;
  }

  -- `Send`
  unfoldable pub send :
      ℕ → String → MessageRouter → String → TaskInfo → Result TaskError (TaskInfo × MessageRouter)
  send now id mr workspace_id task = do
    refuse_if (task.action == "") action_required
    refuse_if (task.recipient_id == "") recipient_required
    refuse_if (task.sender_id == "") sender_required
    let sent = dispatched now id workspace_id task
    elim (save mr.store workspace_id (or_empty (load mr.store workspace_id) ++ sent ∷ [])) [
      | none ↦ err save_failed
      | some s ↦ ok (
        sent,
        record_audit mr s (record {
          workspace_id = workspace_id;
          actor = sent.sender_id;
          event = "task.create";
          resource = id;
          timestamp = now;
        }),
      )
    ]

  -- `Get`
  unfoldable pub get : MessageRouter → String → String → Result TaskError TaskInfo
  get mr workspace_id task_id = elim (load mr.store workspace_id) [
    | none ↦ err load_failed
    | some ts ↦ elim (find (has_id task_id) ts) [ none ↦ err not_found | some t ↦ ok t ]
  ]

  -- `List`, and `History`, which calls it
  unfoldable pub list : MessageRouter → String → ListOptions → Result TaskError (List TaskInfo)
  list mr workspace_id opts = elim (load mr.store workspace_id) [
    | none ↦ err load_failed
    | some ts ↦ ok (paginate (filter_tasks ts opts.filters) opts.offset opts.limit)
  ]

  -- The part of `UpdateStatus` that follows the lookup of the task.
  commit_status :
      ℕ
      → MessageRouter
      → String
      → String
      → TaskStatus
      → Option String
      → List TaskInfo
      → TaskInfo
      → Result TaskError MessageRouter
  commit_status now mr workspace_id task_id status output ts t = do
    validate_transition t.status status
    elim (save mr.store workspace_id (write_task task_id (stamp now status output) ts)) [
      | none ↦ err save_failed
      | some s ↦ ok (
          record_audit mr s (record {
            workspace_id = workspace_id;
            actor = t.recipient_id;
            event = text_append "task." (status_text status);
            resource = task_id;
            timestamp = now;
          }))
    ]

  -- `UpdateStatus`
  unfoldable pub update_status :
      ℕ
      → MessageRouter
      → String
      → String
      → TaskStatus
      → Option String
      → Result TaskError MessageRouter
  unfolding commit_status
  update_status now mr workspace_id task_id status output =
      if not (is_valid_status status)
      then err invalid_status
      else elim (load mr.store workspace_id) [
        | none ↦ err load_failed
        | some ts ↦ elim (find (has_id task_id) ts) [
          | none ↦ err not_found
          | some t ↦ commit_status now mr workspace_id task_id status output ts t
        ]
      ]

  -- `Cancel`
  unfoldable pub cancel : ℕ → MessageRouter → String → String → Result TaskError MessageRouter
  cancel now mr workspace_id task_id = update_status now mr workspace_id task_id cancelled none
