-- ===== src/Collaboration/Tasks/Updates.antt =====
-- internal/core/collaboration/messaging.go: what one write does to a stored list of tasks.
use mathlib.Core.Option.{some-injective}
use mathlib.Core.Bool.{false≢true}
use aps.Base.{
  ap, ◌∙◌, subst, sym, ℕ, ◌<◌, String, Bool, true, false, ◌≡◌, inl, inr, refl, Option, none, some,
  List, [], ◌∷◌, ◌++◌, ok, find, All, ◌==◌, if◌then◌else◌, arith, eq_iff, Bool-cases,
}
use aps.Collaboration.Tasks.{
  TaskStatus, submitted, working, completed, failed, cancelled, undefined, is_valid_status,
  is_terminal, TaskInfo, validate_transition, has_id, stamp, write_task,
}

-- How far a task is: submitted, working, finished.
abbrev pub progress : TaskStatus → ℕ
progress submitted = 0
progress working = 1
progress completed = 2
progress failed = 2
progress cancelled = 2
progress (undefined s) = 0

-- A transition that `validateTransition` lets pass leaves a status that is not final, reaches one of the
-- constants, and is a step forward.
pub validate_transition_forward :
    (from to : TaskStatus)
    → validate_transition from to ≡ ok tt
    → (is_terminal from ≡ false) × (is_valid_status to ≡ true) × (progress from < progress to)
unfolding validate_transition
validate_transition_forward from to h = ground arith

-- A task that has ended, and only such a task, carries the time at which it ended.
abbrev pub has_time : Option ℕ → Bool
has_time none = false
has_time (some n) = true

abbrev pub IsStamped : TaskInfo → Type 0
IsStamped t = is_terminal t.status ≡ has_time t.completed_at

abbrev pub on_found : (TaskInfo → TaskInfo) → Option TaskInfo → Option TaskInfo
on_found f none = none
on_found f (some t) = some (f t)

pub find-write_task :
    (task_id other : String) (f : TaskInfo → TaskInfo) (same : (t : TaskInfo) → (f t).id ≡ t.id)
    (ts : List TaskInfo)
    → find (has_id other) (write_task task_id f ts)
      ≡ (if task_id == other then on_found f (find (has_id other) ts) else find (has_id other) ts)
unfolding write_task
find-write_task task_id other f same [] = ground arith
find-write_task task_id other f same (t ∷ rest) = elim (Bool-cases (has_id task_id t)) [
  | inl e ↦ ground (
    arith,
    same t,
    eq_iff t.id task_id,
    eq_iff t.id other,
    eq_iff task_id other,
    eq_iff (f t).id other,
  )
  | inr e ↦ rw e (
      ground (
        arith,
        find-write_task task_id other f same rest,
        eq_iff t.id task_id,
        eq_iff t.id other,
        eq_iff task_id other,
      ))
]

pub find-append-none :
    (task_id : String) (ts : List TaskInfo) (t : TaskInfo)
    → find (has_id task_id) ts ≡ none
    → t.id ≡ task_id
    → find (has_id task_id) (ts ++ t ∷ []) ≡ some t
find-append-none task_id [] t h e = ground (arith, eq_iff t.id task_id)
find-append-none task_id (x ∷ ts) t h e = ground (arith, find-append-none task_id ts t)

pub find-append-some :
    (task_id : String) (ts : List TaskInfo) (t : TaskInfo) {found : TaskInfo}
    → find (has_id task_id) ts ≡ some found
    → find (has_id task_id) (ts ++ t ∷ []) ≡ some found
find-append-some task_id [] t h = cc
find-append-some task_id (x ∷ ts) t {found} h =
    ground (arith, find-append-some task_id ts t {found = found})

pub stamp-IsStamped :
    (now : ℕ) (status : TaskStatus) (output : Option String) (t : TaskInfo)
    → IsStamped t
    → is_terminal t.status ≡ false
    → IsStamped (stamp now status output t)
unfolding stamp
stamp-IsStamped now status output t h k = ground arith

pub All-write_task :
    (task_id : String) (f : TaskInfo → TaskInfo) (ts : List TaskInfo) {t : TaskInfo}
    → find (has_id task_id) ts ≡ some t
    → IsStamped (f t)
    → All IsStamped ts
    → All IsStamped (write_task task_id f ts)
unfolding write_task
All-write_task task_id f [] h k a = tt
All-write_task task_id f (x ∷ ts) {t} h k a = elim (Bool-cases (has_id task_id x)) [
  | inl e ↦ rw e (subst (λ y. IsStamped (f y)) (sym (some-injective _ _ (rw e at h))) k, a.1)
  | inr e ↦ rw e (a.0, All-write_task task_id f ts {t = t} (ground arith) k a.1)
]

pub All-append-one :
    (ts : List TaskInfo) (t : TaskInfo)
    → All IsStamped ts
    → IsStamped t
    → All IsStamped (ts ++ t ∷ [])
All-append-one [] t a h = (h, tt)
All-append-one (x ∷ ts) t a h = (a.0, All-append-one ts t a.1 h)

pub find-All :
    (task_id : String) (ts : List TaskInfo) {t : TaskInfo}
    → find (has_id task_id) ts ≡ some t
    → All IsStamped ts
    → IsStamped t
find-All task_id [] h a = cc
find-All task_id (x ∷ ts) {t} h a = ground (arith, find-All task_id ts {t = t})

-- A write at a task that has not ended leaves every task that has as it was.
pub find-write_ended :
    (other task_id : String) (f : TaskInfo → TaskInfo) (same : (t : TaskInfo) → (f t).id ≡ t.id)
    (ts : List TaskInfo) {t u : TaskInfo}
    → find (has_id other) ts ≡ some u
    → is_terminal u.status ≡ false
    → find (has_id task_id) ts ≡ some t
    → is_terminal t.status ≡ true
    → find (has_id task_id) (write_task other f ts) ≡ some t
find-write_ended other task_id f same ts {t} {u} hu running ht done =
    elim (Bool-cases (other == task_id)) [
      | inl e ↦
          let both = subst (λ x. find (has_id x) ts ≡ some u) ((eq_iff other task_id).0 e) hu in
          let one = some-injective _ _ (sym both ∙ ht) in
          absurd (false≢true (sym running ∙ ap (λ (x : TaskInfo). is_terminal x.status) one ∙ done))
      | inr e ↦ rw (find-write_task other task_id f same ts) (rw e ht)
    ]

pub stamp-id :
    (now : ℕ) (status : TaskStatus) (output : Option String) (t : TaskInfo)
    → (stamp now status output t).id ≡ t.id
unfolding stamp
stamp-id now status output t = refl
