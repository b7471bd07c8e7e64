-- ===== src/Collaboration/Context/Access.antt =====
-- internal/core/collaboration/context.go: what a call that succeeds has checked and written, and the calls
-- that follow one another on one context.
use aps.Base.{
  ℕ, ◌+◌, String, true, false, ◌≡◌, inl, inr, refl, Option, List, [], ◌∷◌, ◌++◌, Result, ok, err,
  lookup, insert, delete, arith, Option-cases,
}
use aps.Collaboration.Types.{AgentRole, perm_write, perm_delete}
use aps.Collaboration.Context.{
  ContextVisibility, ContextVariable, ContextMutation, AclEntry, Variables, repo_create,
  repo_update, repo_delete, ContextService, WorkspaceContext, ContextError, set_acl, may, is_hidden,
  written, next_version, old_value, store_variable, set, delete_variable,
}

module _ {E : Type 0} (service : ContextService E) where
  open service use {create, update, remove, create_ran, update_ran, remove_ran}

  -- Whether the service created or updated, the variable is now the one under its key.
  store_inserts :
      (vars : Variables) (v : ContextVariable) {vars' : Variables}
      → store_variable service vars (lookup v.key vars) v ≡ ok vars'
      → vars' ≡ insert v.key v vars
  unfolding store_variable repo_create repo_update
  store_inserts vars v {vars'} h = elim (Option-cases (lookup v.key vars)) [
    | inl e ↦ ground (arith, create_ran vars vars' v (rw e at h))
    | inr (w, e) ↦ ground (arith, update_ran vars vars' v (rw e at h))
  ]

  remove_deletes :
      (vars vars' : Variables) (key : String) → remove vars key ≡ ok vars' → vars' ≡ delete key vars
  unfolding repo_delete
  remove_deletes vars vars' key h = ground (arith, remove_ran vars vars' key h)

  abbrev pub mutation_of_set :
      ℕ → String → WorkspaceContext → String → String → String → ContextMutation
  mutation_of_set now note wc key value agent_id = record {
    key = key;
    old_value = old_value (lookup key wc.variables);
    new_value = value;
    version = next_version (lookup key wc.variables);
    agent_id = agent_id;
    note = note;
    timestamp = now;
  }

  -- A set that succeeds was allowed, replaces the variable under its key and logs one mutation.
  pub record WasSet (now : ℕ) (note : String) (wc wc' : WorkspaceContext)
      (key value agent_id : String) (role : AgentRole) (visibility : Option ContextVisibility)
      (v : ContextVariable) : Type 0 where
    pub visible : is_hidden (lookup key wc.variables) agent_id ≡ false
    pub permitted : may wc key role perm_write ≡ true
    pub is_written : v ≡ written now key value agent_id visibility (lookup key wc.variables)
    pub inserted : wc'.variables ≡ insert key v wc.variables
    pub logged : wc'.mutations ≡ wc.mutations ++ mutation_of_set now note wc key value agent_id ∷ []
    pub same_acls : wc'.acls ≡ wc.acls

  pub set-WasSet :
      (now : ℕ) (note : String) (wc : WorkspaceContext) (key value agent_id : String)
      (role : AgentRole) (visibility : Option ContextVisibility) {v : ContextVariable}
      {wc' : WorkspaceContext}
      → set service now note wc key value agent_id role visibility ≡ ok (v, wc')
      → WasSet now note wc wc' key value agent_id role visibility v
  unfolding set written
  set-WasSet now note wc key value agent_id role visibility {v} {wc'} h =
      let x = written now key value agent_id visibility (lookup key wc.variables) in
      ground (arith, store_inserts wc.variables x {vars' = wc'.variables})

  -- A delete that succeeds was allowed, and removes a variable that was there.
  pub record WasDeleted (wc wc' : WorkspaceContext) (key agent_id : String) (role : AgentRole)
      (m : ContextMutation) : Type 0 where
    pub visible : is_hidden (lookup key wc.variables) agent_id ≡ false
    pub permitted : may wc key role perm_delete ≡ true
    pub deleted : wc'.variables ≡ delete key wc.variables
    pub logged : wc'.mutations ≡ wc.mutations ++ m ∷ []
    pub logged_key : m.key ≡ key
    pub same_acls : wc'.acls ≡ wc.acls

  pub delete_variable-WasDeleted :
      (now : ℕ) (note : String) (wc : WorkspaceContext) (key agent_id : String) (role : AgentRole)
      {wc' : WorkspaceContext}
      → delete_variable service now note wc key agent_id role ≡ ok wc'
      → (m : ContextMutation) × WasDeleted wc wc' key agent_id role m
  unfolding delete_variable
  delete_variable-WasDeleted now note wc key agent_id role {wc'} h =
      elim (Option-cases (lookup key wc.variables)) [
        | inl e ↦ absurd (ground arith)
        | inr (v, e) ↦ (
          record {
            key = key;
            old_value = v.value;
            new_value = "";
            version = v.version + 1;
            agent_id = agent_id;
            note = note;
            timestamp = now;
          },
          ground (arith, remove_deletes wc.variables wc'.variables key),
        )
      ]

  -- The calls that change a context, with the profile that makes them.
  pub data Call : Type 0 where
    set_call : ℕ → String → String → String → String → AgentRole → Option ContextVisibility → Call
    delete_call : ℕ → String → String → String → AgentRole → Call
    acl_call : AclEntry → Call

  abbrev after_set :
      WorkspaceContext
      → Result (ContextError E) (ContextVariable × WorkspaceContext)
      → WorkspaceContext
  after_set wc (ok (v, wc')) = wc'
  after_set wc (err e) = wc

  abbrev after_delete :
      WorkspaceContext → Result (ContextError E) WorkspaceContext → WorkspaceContext
  after_delete wc (ok wc') = wc'
  after_delete wc (err e) = wc

  -- A call that returns an error leaves the context as it was.
  unfoldable pub apply_call : WorkspaceContext → Call → WorkspaceContext
  apply_call wc (set_call now note key value agent_id role visibility) =
      after_set wc (set service now note wc key value agent_id role visibility)
  apply_call wc (delete_call now note key agent_id role) =
      after_delete wc (delete_variable service now note wc key agent_id role)
  apply_call wc (acl_call acl) = set_acl wc acl

  unfoldable pub run_calls : WorkspaceContext → List Call → WorkspaceContext
  run_calls wc [] = wc
  run_calls wc (c ∷ rest) = run_calls (apply_call wc c) rest

  pub after_set_elim :
      (P : WorkspaceContext → Type 0) (wc : WorkspaceContext)
      (r : Result (ContextError E) (ContextVariable × WorkspaceContext))
      → P wc
      → ((v : ContextVariable) (wc' : WorkspaceContext) → r ≡ ok (v, wc') → P wc')
      → P (after_set wc r)
  after_set_elim P wc (ok (v, wc')) p f = f v wc' refl
  after_set_elim P wc (err e) p f = p

  pub after_delete_elim :
      (P : WorkspaceContext → Type 0) (wc : WorkspaceContext)
      (r : Result (ContextError E) WorkspaceContext)
      → P wc
      → ((wc' : WorkspaceContext) → r ≡ ok wc' → P wc')
      → P (after_delete wc r)
  after_delete_elim P wc (ok wc') p f = f wc' refl
  after_delete_elim P wc (err e) p f = p
