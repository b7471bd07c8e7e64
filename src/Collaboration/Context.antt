-- ===== src/Collaboration/Context.antt =====
-- internal/core/collaboration/context.go, context_service.go and the variables, mutations and access
-- lists of types.go: the variables that the agents of a workspace share. Each call runs under the
-- context's lock and is one step. `domain.Service` of hop.top/kit is the parameter `service`.
pub mod Access
pub mod Privacy
pub mod Log
pub mod Tests
use aps.Base.{
  ℕ, ◌+◌, String, Bool, true, false, not, ◌&&◌, ◌||◌, ◌≡◌, Option, none, some, List, [], ◌∷◌, ◌++◌,
  Result, ok, err, keep, map, Dict, lookup, insert, delete, nat_eq, ◌==◌, if◌then◌else◌, ◌>>=◌,
  ◌>>◌, refuse_if,
}
use aps.Collaboration.Types.{
  AgentRole, owner, contributor, observer, role_eq, Permission, perm_read, perm_write, perm_delete,
  perm_admin, perm_eq,
}

-- `unset` is the empty string; `other` is a text that is neither.
pub data ContextVisibility : Type 0 where
  unset shared private : ContextVisibility
  other : String → ContextVisibility

pub record ContextVariable : Type 0 where
  pub key : String
  pub value : String
  pub version : ℕ
  pub updated_by : String
  pub updated_at : ℕ
  pub visibility : ContextVisibility

-- `EffectiveVisibility() == VisibilityShared`, through `NormalizeVisibility`
abbrev pub is_shared : ContextVisibility → Bool
is_shared unset = true
is_shared shared = true
is_shared _ = false

-- `IsVisibleTo`
abbrev pub is_visible_to : ContextVariable → String → Bool
is_visible_to v profile_id = if is_shared v.visibility then true else v.updated_by == profile_id

pub record ContextMutation : Type 0 where
  pub key : String
  pub old_value : String
  pub new_value : String
  pub version : ℕ
  pub agent_id : String
  pub note : String
  pub timestamp : ℕ

-- `Permissions` is the map from roles to permissions.
pub record AclEntry : Type 0 where
  pub key : String
  pub permissions : List (AgentRole × List Permission)

-- `DefaultACL`
unfoldable pub default_acl : String → AclEntry
default_acl key = record {
  key = key;
  permissions =
      (owner, perm_read ∷ perm_write ∷ perm_delete ∷ perm_admin ∷ [])
      ∷ (contributor, perm_read ∷ perm_write ∷ [])
      ∷ (observer, perm_read ∷ [])
      ∷ [];
}

abbrev pub has_perm : Permission → List Permission → Bool
has_perm p [] = false
has_perm p (q ∷ qs) = perm_eq q p || has_perm p qs

-- `slices.Contains(a.Permissions[role], perm)`, false where the role has no entry
abbrev pub role_has : AgentRole → Permission → List (AgentRole × List Permission) → Bool
role_has role perm [] = false
role_has role perm (entry ∷ rest) =
    let later = role_has role perm rest in
    if role_eq entry.0 role then has_perm perm entry.1 else later

-- `HasPermission`
unfoldable pub has_permission : AclEntry → AgentRole → Permission → Bool
has_permission a role perm = role_has role perm a.permissions

abbrev pub Variables : Type 0
Variables = Dict ContextVariable

pub data RepositoryError : Type 0 where
  conflict missing : RepositoryError

-- `contextRepository.Create`
unfoldable pub repo_create : Variables → ContextVariable → Result RepositoryError Variables
repo_create vars v = elim (lookup v.key vars) [
  | some w ↦ err conflict
  | none ↦ ok (insert v.key v vars)
]

-- `contextRepository.Update`
unfoldable pub repo_update : Variables → ContextVariable → Result RepositoryError Variables
repo_update vars v = elim (lookup v.key vars) [
  | some w ↦ ok (insert v.key v vars)
  | none ↦ err missing
]

-- `contextRepository.Delete`
unfoldable pub repo_delete : Variables → String → Result RepositoryError Variables
repo_delete vars key = elim (lookup key vars) [ some w ↦ ok (delete key vars) | none ↦ err missing ]

-- `contextValidator.Validate(v) == nil`
unfoldable pub is_valid_variable : ContextVariable → Bool
is_valid_variable v = not (v.key == "") && (not (nat_eq v.version 0) && not (v.updated_by == ""))

-- The service over the repository: it validates, gives subscribers the chance to veto, and runs the
-- repository's operation. Where it returns no error, the validator has passed and the operation has
-- run; where it returns one, nothing was written.
pub record ContextService (E : Type 0) : Type 0 where
  pub create : Variables → ContextVariable → Result E Variables
  pub update : Variables → ContextVariable → Result E Variables
  pub remove : Variables → String → Result E Variables
  pub create_ran :
      (vars vars' : Variables) (v : ContextVariable)
      → create vars v ≡ ok vars'
      → (is_valid_variable v ≡ true) × (repo_create vars v ≡ ok vars')
  pub update_ran :
      (vars vars' : Variables) (v : ContextVariable)
      → update vars v ≡ ok vars'
      → (is_valid_variable v ≡ true) × (repo_update vars v ≡ ok vars')
  pub remove_ran :
      (vars vars' : Variables) (key : String)
      → remove vars key ≡ ok vars'
      → repo_delete vars key ≡ ok vars'

pub record WorkspaceContext : Type 0 where
  pub variables : Variables
  pub mutations : List ContextMutation
  pub acls : Dict AclEntry

-- `NewWorkspaceContext`
abbrev pub new_context : WorkspaceContext
new_context = record { variables = []; mutations = []; acls = [] }

-- `GetACL`
unfoldable pub get_acl : WorkspaceContext → String → AclEntry
get_acl wc key = elim (lookup key wc.acls) [ some a ↦ a | none ↦ default_acl key ]

-- `SetACL`
unfoldable pub set_acl : WorkspaceContext → AclEntry → WorkspaceContext
set_acl wc acl = record wc { acls = insert acl.key acl wc.acls }

-- `checkPermission(...) == nil`
unfoldable pub may : WorkspaceContext → String → AgentRole → Permission → Bool
unfolding get_acl
may wc key role perm = has_permission (get_acl wc key) role perm

-- A failed call: the two refusals of its own, or the error of the service.
pub data ContextError (E : Type 0) : Type 0 where
  not_found permission_denied : ContextError E
  service_error : E → ContextError E

-- `exists && !existing.IsVisibleTo(agentID)`
abbrev pub is_hidden : Option ContextVariable → String → Bool
is_hidden none agent_id = false
is_hidden (some v) agent_id = not (is_visible_to v agent_id)

abbrev pub next_version : Option ContextVariable → ℕ
next_version none = 1
next_version (some v) = v.version + 1

abbrev old_value : Option ContextVariable → String
old_value none = ""
old_value (some v) = v.value

-- The visibility given by an option of the call, else the variable's own, else the empty string.
abbrev chosen : Option ContextVisibility → Option ContextVariable → ContextVisibility
chosen (some vis) existing = vis
chosen none (some v) = v.visibility
chosen none none = unset

-- The variable that a set writes.
unfoldable pub written :
    ℕ
    → String
    → String
    → String
    → Option ContextVisibility
    → Option ContextVariable
    → ContextVariable
written now key value agent_id visibility existing = record {
  key = key;
  value = value;
  version = next_version existing;
  updated_by = agent_id;
  updated_at = now;
  visibility = chosen visibility existing;
}

-- `Get`
unfoldable pub get : WorkspaceContext → String → Option ContextVariable
get wc key = lookup key wc.variables

-- `GetForProfile`
unfoldable pub get_for_profile : WorkspaceContext → String → String → Option ContextVariable
get_for_profile wc key profile_id = elim (lookup key wc.variables) [
  | none ↦ none
  | some v ↦ if not (profile_id == "") && not (is_visible_to v profile_id) then none else some v
]

-- `snapshot`, for the list's order of the map
abbrev pub values : Variables → List ContextVariable
values [] = []
values (entry ∷ rest) = entry.1 ∷ values rest

-- `ListForProfile`; `List` is the case of the empty profile.
unfoldable pub list_for_profile : WorkspaceContext → String → List ContextVariable
list_for_profile wc profile_id =
    if profile_id == ""
    then values wc.variables
    else keep (λ v. is_visible_to v profile_id) (values wc.variables)

-- `MutationsForKey`
unfoldable pub mutations_for_key : WorkspaceContext → String → List ContextMutation
mutations_for_key wc key = keep (λ m. m.key == key) wc.mutations

module _ {E : Type 0} (service : ContextService E) where
  open service use {create, update, remove}

  -- `service.Update` or `service.Create`, as the variable exists or not
  unfoldable pub store_variable :
      Variables → Option ContextVariable → ContextVariable → Result E Variables
  store_variable vars none v = create vars v
  store_variable vars (some w) v = update vars v

  -- `SetWithContext`; `note` is the audit note of its context
  unfoldable pub set :
      ℕ
      → String
      → WorkspaceContext
      → String
      → String
      → String
      → AgentRole
      → Option ContextVisibility
      → Result (ContextError E) (ContextVariable × WorkspaceContext)
  unfolding store_variable
  set now note wc key value agent_id role visibility =
      let existing = lookup key wc.variables in
      if is_hidden existing agent_id
      then err not_found
      else if not (may wc key role perm_write)
      then err permission_denied
      else let v = written now key value agent_id visibility existing in
        elim (store_variable wc.variables existing v) [
          | err e ↦ err (service_error e)
          | ok vars ↦ ok (
            v,
            record wc {
              variables = vars;
              mutations =
                  wc.mutations
                  ++ record {
                    key = key;
                    old_value = old_value existing;
                    new_value = value;
                    version = next_version existing;
                    agent_id = agent_id;
                    note = note;
                    timestamp = now;
                  }
                    ∷ [];
            },
          )
        ]

  -- `DeleteWithContext`; the service's own error stands for both of its messages
  unfoldable pub delete_variable :
      ℕ
      → String
      → WorkspaceContext
      → String
      → String
      → AgentRole
      → Result (ContextError E) WorkspaceContext
  delete_variable now note wc key agent_id role =
      let existing = lookup key wc.variables in
      if is_hidden existing agent_id
      then err not_found
      else if not (may wc key role perm_delete)
      then err permission_denied
      else elim existing [
        | none ↦ err not_found
        | some v ↦ elim (remove wc.variables key) [
          | err e ↦ err (service_error e)
          | ok vars ↦ ok (record wc {
            variables = vars;
            mutations =
                wc.mutations
                ++ record {
                  key = key;
                  old_value = v.value;
                  new_value = "";
                  version = v.version + 1;
                  agent_id = agent_id;
                  note = note;
                  timestamp = now;
                }
                  ∷ [];
          })
        ]
      ]
