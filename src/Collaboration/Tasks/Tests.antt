-- ===== src/Collaboration/Tasks/Tests.antt =====
-- A storage that keeps task lists in memory, runs of the router over it, and the theorems at them.
use mathlib.Core.Option.{some-injective}
use aps.Base.{
  subst, ℕ, ◌≤◌, ◌<◌, String, true, false, ◌≡◌, ◌≢◌, refl, Option, none, some, List, [], ◌∷◌, ◌++◌,
  ok, Dict, lookup, insert, lookup-insert, eq_iff, eq_refl, arith, length, All,
}
use aps.Collaboration.Paging.{paginate, length-paginate, paginate_pages, paginate_past_end}
use aps.Collaboration.Tasks.{
  submitted, working, completed, cancelled, is_terminal, is_valid_status, TaskInfo, TaskStorage,
  MessageRouter, send, get, update_status, validate_transition, dispatched, stamp, write_task,
}
use aps.Collaboration.Tasks.Updates.{validate_transition_forward, progress, IsStamped}
use aps.Collaboration.Tasks.Routing.{
  Call, send_call, status_call, apply_call, run_calls, finished_final, run_calls-AllStamped,
  AllStamped, send_replaces_unreadable,
}

-- A file that holds `none` cannot be read; a missing one holds no tasks.
abbrev Files : Type 0
Files = Dict (Option (List TaskInfo))

read_file : Option (Option (List TaskInfo)) → Option (List TaskInfo)
read_file none = some []
read_file (some content) = content

load_file : Files → String → Option (List TaskInfo)
unfolding read_file
load_file files w = read_file (lookup w files)

save_file : Files → String → List TaskInfo → Option Files
save_file files w ts = some (insert w (some ts) files)

load-save_file :
    (s s' : Files) (w : String) (ts : List TaskInfo)
    → save_file s w ts ≡ some s'
    → load_file s' w ≡ some ts
unfolding save_file load_file
load-save_file s s' w ts h = ground (arith, lookup-insert w w (some ts) s, eq_refl w)

load-save_file_other :
    (s s' : Files) (w v : String) (ts : List TaskInfo)
    → save_file s w ts ≡ some s'
    → w ≢ v
    → load_file s' v ≡ load_file s v
unfolding save_file load_file
load-save_file_other s s' w v ts h n = ground (arith, lookup-insert w v (some ts) s, eq_iff w v)

abbrev memory : TaskStorage
memory = record {
  Store = Files;
  load = load_file;
  save = save_file;
  load-save = load-save_file;
  load-save_other = load-save_file_other;
}

abbrev review : TaskInfo
review = record {
  id = "";
  workspace_id = "";
  sender_id = "ann";
  recipient_id = "bob";
  action = "review";
  input = none;
  output = none;
  status = submitted;
  error = "";
  dependencies = [];
  created_at = 0;
  updated_at = 0;
  completed_at = none;
  timeout = 0;
}

abbrev empty_router : MessageRouter memory
empty_router = record { store = []; audit = [] }

abbrev sent_review : TaskInfo
sent_review = dispatched memory 10 "t1" "w" review

abbrev one_sent : MessageRouter memory
one_sent = record {
  store = ("w", some (sent_review ∷ [])) ∷ [];
  audit =
      record {
        workspace_id = "w";
        actor = "ann";
        event = "task.create";
        resource = "t1";
        timestamp = 10;
      }
      ∷ [];
}

sent_once : send memory 10 "t1" empty_router "w" review ≡ ok (sent_review, one_sent)
unfolding send load_file save_file lookup insert
sent_once = refl

abbrev work : List (Call memory)
work =
    status_call 11 "w" "t1" working none
    ∷ status_call 12 "w" "t1" completed (some "fine")
    ∷ status_call 13 "w" "t1" cancelled none
    ∷ []

abbrev done_review : TaskInfo
done_review = record sent_review {
  status = completed;
  updated_at = 12;
  output = some "fine";
  completed_at = some 12;
}

worked : get memory (run_calls memory one_sent work) "w" "t1" ≡ ok done_review
unfolding run_calls apply_call update_status validate_transition write_task stamp get load_file
    save_file lookup insert
worked = refl

validate_transition_forward_at :
    (is_terminal submitted ≡ false)
    × (is_valid_status working ≡ true)
    × (progress submitted < progress working)
unfolding validate_transition
validate_transition_forward_at = validate_transition_forward submitted working refl

finished_final_example :
    get memory (run_calls memory (run_calls memory one_sent work) work) "w" "t1" ≡ ok done_review
finished_final_example =
    finished_final memory (run_calls memory one_sent work) work "w" "t1" refl worked

abbrev all_work : List (Call memory)
all_work = send_call 10 "t1" "w" review ∷ work

empty_stamped : AllStamped memory empty_router
unfolding load_file lookup
empty_stamped w ts h = subst (All IsStamped) (some-injective _ _ h) tt

run_calls-AllStamped_example : AllStamped memory (run_calls memory empty_router all_work)
run_calls-AllStamped_example =
    run_calls-AllStamped memory empty_router all_work (refl, (tt, (tt, (tt, tt)))) empty_stamped

abbrev broken : MessageRouter memory
broken = record { store = ("w", none) ∷ []; audit = [] }

sent_to_broken : send memory 10 "t1" broken "w" review ≡ ok (sent_review, one_sent)
unfolding send load_file save_file lookup insert
sent_to_broken = refl

send_replaces_unreadable_at : load_file one_sent.store "w" ≡ some (sent_review ∷ [])
unfolding load_file lookup
send_replaces_unreadable_at =
    send_replaces_unreadable memory 10 "t1" broken "w" review refl sent_to_broken

abbrev five : List ℕ
five = 1 ∷ 2 ∷ 3 ∷ 4 ∷ 5 ∷ []

page_is_short : length (paginate five 2 2) ≤ 2
page_is_short = length-paginate five 2 2 (omega arith)

paginate_pages_at : paginate five 2 2 ++ paginate five 4 0 ≡ paginate five 2 0
paginate_pages_at = paginate_pages five 2 2 (omega arith) (omega arith)

paginate_past_end_at : paginate five 5 2 ≡ paginate five 0 2
paginate_past_end_at = paginate_past_end five 5 2 (omega arith)
