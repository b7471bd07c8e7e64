-- ===== src/Collaboration/Context/Tests.antt =====
-- A service that validates and never vetoes, and the theorems at contexts over it.
use aps.Base.{
  String, true, false, ◌≡◌, ◌↔◌, refl, none, some, List, [], ◌∷◌, Result, ok, err, lookup, insert,
  if◌then◌else◌, arith, eq_iff,
}
use aps.Collaboration.Types.{owner, contributor, observer, perm_delete}
use aps.Collaboration.Context.{
  unset, private, ContextVariable, Variables, RepositoryError, repo_create, repo_update,
  repo_delete, is_valid_variable, ContextService, WorkspaceContext, new_context, may, is_hidden,
  written, next_version, set, delete_variable, not_found, permission_denied, get, get_for_profile,
  default_acl, has_permission,
}
use aps.Collaboration.Context.Access.{Call, set_call, delete_call, run_calls}
use aps.Collaboration.Context.Privacy.{private_kept, set_not_found_iff_hidden, delete_tells_hidden}
use aps.Collaboration.Context.Log.{log_accounts, LogAgrees, set_version}

pub data ServiceError : Type 0 where
  invalid : ServiceError
  from_repository : RepositoryError → ServiceError

unfoldable pub lift : Result RepositoryError Variables → Result ServiceError Variables
lift (ok vars) = ok vars
lift (err e) = err (from_repository e)

unfoldable pub plain_create : Variables → ContextVariable → Result ServiceError Variables
unfolding lift
plain_create vars v = if is_valid_variable v then lift (repo_create vars v) else err invalid

unfoldable pub plain_update : Variables → ContextVariable → Result ServiceError Variables
unfolding lift
plain_update vars v = if is_valid_variable v then lift (repo_update vars v) else err invalid

pub plain_remove : Variables → String → Result ServiceError Variables
unfolding lift
plain_remove vars key = lift (repo_delete vars key)

lift_ok : (r : Result RepositoryError Variables) (vars : Variables) → lift r ≡ ok vars → r ≡ ok vars
unfolding lift
lift_ok (ok x) vars h = ground arith
lift_ok (err e) vars h = ground arith

pub plain_create_ran :
    (vars vars' : Variables) (v : ContextVariable)
    → plain_create vars v ≡ ok vars'
    → (is_valid_variable v ≡ true) × (repo_create vars v ≡ ok vars')
unfolding plain_create
plain_create_ran vars vars' v h = ground (arith, lift_ok (repo_create vars v) vars')

pub plain_update_ran :
    (vars vars' : Variables) (v : ContextVariable)
    → plain_update vars v ≡ ok vars'
    → (is_valid_variable v ≡ true) × (repo_update vars v ≡ ok vars')
unfolding plain_update
plain_update_ran vars vars' v h = ground (arith, lift_ok (repo_update vars v) vars')

pub plain_remove_ran :
    (vars vars' : Variables) (key : String)
    → plain_remove vars key ≡ ok vars'
    → repo_delete vars key ≡ ok vars'
unfolding plain_remove
plain_remove_ran vars vars' key h = lift_ok (repo_delete vars key) vars' h

abbrev pub plain : ContextService ServiceError
plain = record {
  create = plain_create;
  update = plain_update;
  remove = plain_remove;
  create_ran = plain_create_ran;
  update_ran = plain_update_ran;
  remove_ran = plain_remove_ran;
}

abbrev secret : ContextVariable
secret = record {
  key = "token";
  value = "s3";
  version = 1;
  updated_by = "ann";
  updated_at = 5;
  visibility = private;
}

abbrev holding : WorkspaceContext
holding = record { variables = ("token", secret) ∷ []; mutations = []; acls = [] }

abbrev attempts : List (Call plain)
attempts =
    set_call 6 "" "token" "x" "bob" owner none
    ∷ delete_call 7 "" "token" "bob" owner
    ∷ set_call 8 "" "plan" "go" "bob" contributor none
    ∷ []

private_kept_example :
    (get (run_calls plain holding attempts) "token" ≡ some secret)
    × (get_for_profile (run_calls plain holding attempts) "token" "bob" ≡ none)
unfolding get lookup
private_kept_example =
    private_kept plain holding attempts "token" "bob" secret (refl, (refl, (refl, tt))) refl
      (λ p. ground (arith, eq_iff "bob" "")) refl

set_not_found_iff_hidden_example :
    (set plain 6 "" holding "token" "x" "bob" owner none ≡ err not_found)
    ↔ (is_hidden (get holding "token") "bob" ≡ true)
set_not_found_iff_hidden_example =
    set_not_found_iff_hidden plain 6 "" holding "token" "x" "bob" owner none

contributor_may_not_delete : may holding "token" contributor perm_delete ≡ false
unfolding may has_permission default_acl lookup
contributor_may_not_delete = refl

delete_tells_hidden_at :
    delete_variable plain 6 "" holding "token" "bob" contributor
    ≡ (if is_hidden (get holding "token") "bob" then err not_found else err permission_denied)
delete_tells_hidden_at =
    delete_tells_hidden plain 6 "" holding "token" "bob" contributor contributor_may_not_delete

log_accounts_example : LogAgrees (run_calls plain new_context attempts)
log_accounts_example = log_accounts plain attempts

abbrev plan : ContextVariable
plan = record {
  key = "plan";
  value = "go";
  version = 1;
  updated_by = "bob";
  updated_at = 8;
  visibility = unset;
}

abbrev planned : WorkspaceContext
planned = record {
  variables = ("plan", plan) ∷ [];
  mutations =
      record {
        key = "plan";
        old_value = "";
        new_value = "go";
        version = 1;
        agent_id = "bob";
        note = "why";
        timestamp = 8;
      }
      ∷ [];
  acls = [];
}

set-plan : set plain 8 "why" new_context "plan" "go" "bob" contributor none ≡ ok (plan, planned)
unfolding set written may has_permission default_acl plain_create is_valid_variable repo_create
    lookup insert
set-plan = refl

observers_may_not_write :
    set plain 8 "" new_context "plan" "go" "bob" observer none ≡ err permission_denied
unfolding set may has_permission default_acl lookup
observers_may_not_write = refl

set_version_at :
    (get planned "plan" ≡ some plan)
    × (plan.version ≡ next_version (get new_context "plan"))
    × (plan.value ≡ "go")
    × (plan.updated_by ≡ "bob")
set_version_at = set_version plain 8 "why" new_context "plan" "go" "bob" contributor none set-plan
