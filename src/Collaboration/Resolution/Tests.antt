-- ===== src/Collaboration/Resolution/Tests.antt =====
-- internal/core/collaboration/resolution.go and conflict.go: three writes to one plan, and the theorems at them.
use aps.Base.{
  ℕ, ◌<◌, String, true, false, ◌≡◌, ◌↔◌, refl, none, [], ◌∷◌, ◌++◌, ok, err, any, times, lookup,
  insert, ◌==◌, arith,
}
use aps.Collaboration.Types.{
  AgentInfo, contributor, Conflict, priority, keep_first, rollback, consensus,
}
use aps.Collaboration.Workspace.{agent_online, get_agent}
use aps.Collaboration.Workspace.Tests.{pair}
use aps.Collaboration.Context.{
  unset, private, ContextVariable, ContextMutation, repo_update, is_valid_variable,
  WorkspaceContext, not_found, set, mutations_for_key, may, get_acl, has_permission, default_acl,
  store_variable, written,
}
use aps.Collaboration.Context.Tests.{ServiceError, plain, plain_update, lift}
use aps.Collaboration.Resolution.{
  new_policy, unsupported, settle_by_role, pick, mutation_for, restore, resolve_first,
  resolve_rollback, set_failed, write_conflict, by_system, group_by_key, agents_of, conflicts_of,
  detect_write_conflicts, detect_lock_conflict,
}
use aps.Collaboration.Resolution.Winners.{outranks, settle_by_role_highest}
use aps.Collaboration.Resolution.Restoring.{
  IsFirst, Restored, resolve_first_restores, resolve_rollback_restores,
}
use aps.Collaboration.Resolution.Detection.{Contended, detect_write_conflicts_iff}

abbrev write_of : ℕ → String → String → String → ContextMutation
write_of time agent_id old new = record {
  key = "plan";
  old_value = old;
  new_value = new;
  version = time;
  agent_id = agent_id;
  note = "";
  timestamp = time;
}

abbrev plan : ContextVariable
plan = record {
  key = "plan";
  value = "c";
  version = 3;
  updated_by = "bob";
  updated_at = 9;
  visibility = unset;
}

abbrev planning : WorkspaceContext
planning = record {
  variables = ("plan", plan) ∷ [];
  mutations = write_of 1 "ann" "" "a" ∷ write_of 8 "ann" "a" "b" ∷ write_of 9 "bob" "b" "c" ∷ [];
  acls = [];
}

abbrev dispute : Conflict
dispute = write_conflict 10 "k0" "w1" "plan" ("bob" ∷ "ann" ∷ [])

abbrev after_plan : String → WorkspaceContext
after_plan value = record planning {
  variables =
      ("plan", record plan { value = value; version = 4; updated_by = "system"; updated_at = 10 })
      ∷ [];
  mutations = planning.mutations ++ record (write_of 10 "system" "c" value) { version = 4 } ∷ [];
}

kept_first : resolve_first plain 10 dispute planning ≡ ok (by_system 10 keep_first, after_plan "a")
unfolding resolve_first restore mutation_for mutations_for_key pick set may get_acl has_permission
    default_acl store_variable plain_update lift is_valid_variable repo_update written lookup insert
kept_first = refl

-- The conflict is about the writes at 8 and 9; rollback goes back to before the write at 1.
rolled_back : resolve_rollback plain 10 dispute planning ≡ ok (by_system 10 rollback, after_plan "")
unfolding resolve_rollback restore mutation_for mutations_for_key pick set may get_acl
    has_permission default_acl store_variable plain_update lift is_valid_variable repo_update
    written lookup insert
rolled_back = refl

no_consensus : new_policy {E = ServiceError} consensus ≡ err unsupported
unfolding new_policy
no_consensus = refl

lock_held : detect_lock_conflict 3 "k1" (("db", "ann") ∷ []) "ann" "db" ≡ none
unfolding detect_lock_conflict lookup
lock_held = refl

settle_by_role_highest_example :
    (winner : String) × (b : AgentInfo) × (settle_by_role {E = ServiceError} 10 dispute pair
      ≡ ok (record { strategy = priority; resolved_by = winner; timestamp = 10 }))
    × (0 < times winner ("bob" ∷ "ann" ∷ []))
    × (get_agent pair winner ≡ ok b)
    × ((x : String) (a : AgentInfo)
        → 0 < times x ("bob" ∷ "ann" ∷ [])
        → get_agent pair x ≡ ok a
        → outranks a.role b.role ≡ false)
unfolding get_agent
settle_by_role_highest_example =
    settle_by_role_highest {E = ServiceError} 10 dispute pair "bob"
      (agent_online 6 "bob" contributor) refl (omega arith) refl

kept_value :
    (m : ContextMutation) × IsFirst ("bob" ∷ "ann" ∷ []) (mutations_for_key planning "plan") m
    × Restored plain "plan" m.new_value planning (after_plan "a")
kept_value =
    resolve_first_restores plain 10 dispute planning (by_system 10 keep_first) (after_plan "a")
      kept_first

resolve_rollback_restores_example :
    (m : ContextMutation) × IsFirst ("bob" ∷ "ann" ∷ []) (mutations_for_key planning "plan") m
    × Restored plain "plan" m.old_value planning (after_plan "")
resolve_rollback_restores_example =
    resolve_rollback_restores plain 10 dispute planning (by_system 10 rollback) (after_plan "")
      rolled_back

abbrev hiding : WorkspaceContext
hiding = record planning { variables = ("plan", record plan { visibility = private }) ∷ [] }

-- The plan is private and was last written by bob, so the system does not see it.
private_fails :
    (resolve_first plain 10 dispute hiding ≡ err (set_failed not_found))
    × (resolve_rollback plain 10 dispute hiding ≡ err (set_failed not_found))
unfolding resolve_first resolve_rollback restore mutation_for mutations_for_key pick set lookup
private_fails = (refl, refl)

detect_write_conflicts_iff_example :
    (any (λ c. c.resource == "plan") (detect_write_conflicts 10 (λ n. "k") "w1" planning 3) ≡ true)
    ↔ Contended 10 3 planning.mutations "plan"
detect_write_conflicts_iff_example = detect_write_conflicts_iff 10 (λ n. "k") "w1" planning 3 "plan"

plan_reported :
    any (λ c. c.resource == "plan") (detect_write_conflicts 10 (λ n. "k") "w1" planning 3) ≡ true
unfolding detect_write_conflicts conflicts_of group_by_key agents_of lookup insert
plan_reported = refl
