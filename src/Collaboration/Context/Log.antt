-- ===== src/Collaboration/Context/Log.antt =====
-- internal/core/collaboration/context.go: the log of mutations against the stored variables.
use aps.Base.{
  ℕ, String, ◌≡◌, inl, inr, Option, none, some, List, [], ◌∷◌, ◌++◌, ok, lookup, insert, delete,
  lookup-insert, lookup-delete, ◌==◌, if◌then◌else◌, arith, eq_refl, Bool-cases, subst,
}
use aps.Collaboration.Types.{AgentRole}
use aps.Collaboration.Context.{
  ContextVisibility, ContextVariable, ContextMutation, Variables, ContextService, WorkspaceContext,
  new_context, set_acl, written, next_version, set, delete_variable, get,
}
use aps.Collaboration.Context.Access.{
  set-WasSet, delete_variable-WasDeleted, Call, set_call, delete_call, acl_call, apply_call,
  run_calls, after_set_elim, after_delete_elim, mutation_of_set,
}

-- The last mutation of a key.
pub last_for : String → List ContextMutation → Option ContextMutation
last_for key [] = none
last_for key (m ∷ rest) =
    let later = last_for key rest in
    elim later [ some x ↦ some x | none ↦ if m.key == key then some m else none ]

last_for-append :
    (key : String) (ms : List ContextMutation) (m : ContextMutation)
    → last_for key (ms ++ m ∷ []) ≡ (if m.key == key then some m else last_for key ms)
unfolding last_for
last_for-append key [] m = ground arith
last_for-append key (x ∷ ms) m = ground (arith, last_for-append key ms m)

-- The mutation is the write of the variable.
pub record Explains (m : ContextMutation) (v : ContextVariable) : Type 0 where
  pub value : m.new_value ≡ v.value
  pub version : m.version ≡ v.version
  pub author : m.agent_id ≡ v.updated_by

-- The log accounts for the variable at a key, if there is one.
abbrev pub Accounted : Option ContextVariable → Option ContextMutation → Type 0
Accounted none m = Unit
Accounted (some v) none = ⊥
Accounted (some v) (some m) = Explains m v

abbrev pub LogAgrees : WorkspaceContext → Type 0
LogAgrees wc = (key : String) → Accounted (get wc key) (last_for key wc.mutations)

Accounted-set :
    (vars : Variables) (ms : List ContextMutation) (key : String) (v : ContextVariable)
    (m : ContextMutation)
    → Explains m v
    → Accounted (lookup key vars) (last_for key ms)
    → Accounted (lookup key (insert m.key v vars)) (last_for key (ms ++ m ∷ []))
Accounted-set vars ms key v m x h = rw (lookup-insert m.key key v vars) (
    rw (last_for-append key ms m)
      (elim (Bool-cases (m.key == key)) [ inl e ↦ simp e x | inr e ↦ simp e h ]))

Accounted-delete :
    (vars : Variables) (ms : List ContextMutation) (key : String) (m : ContextMutation)
    → Accounted (lookup key vars) (last_for key ms)
    → Accounted (lookup key (delete m.key vars)) (last_for key (ms ++ m ∷ []))
Accounted-delete vars ms key m h = rw (lookup-delete m.key key vars) (
    rw (last_for-append key ms m)
      (elim (Bool-cases (m.key == key)) [ inl e ↦ simp e tt | inr e ↦ simp e h ]))

module _ {E : Type 0} (service : ContextService E) where
  Explains-written :
      (now : ℕ) (value agent_id k : String) (visibility : Option ContextVisibility) (note : String)
      (wc : WorkspaceContext) (v : ContextVariable)
      → v ≡ written now k value agent_id visibility (lookup k wc.variables)
      → Explains (mutation_of_set service now note wc k value agent_id) v
  unfolding written
  Explains-written now value agent_id k visibility note wc v e = ground arith

  agrees_after_call :
      (wc : WorkspaceContext) (c : Call service)
      → LogAgrees wc
      → LogAgrees (apply_call service wc c)
  unfolding apply_call get set_acl
  agrees_after_call wc (set_call now note k value agent_id role visibility) h =
      after_set_elim service LogAgrees wc (set service now note wc k value agent_id role visibility)
        h
        λ v wc' e key.
          let was = set-WasSet service now note wc k value agent_id role visibility e in
          let m = mutation_of_set service now note wc k value agent_id in
          rw was.inserted (
            rw was.logged (
              Accounted-set wc.variables wc.mutations key v m
                (Explains-written now value agent_id k visibility note wc v was.is_written)
                (h key)))
  agrees_after_call wc (delete_call now note k agent_id role) h =
      after_delete_elim service LogAgrees wc (delete_variable service now note wc k agent_id role) h
        λ wc' e key.
          let (m, was) = delete_variable-WasDeleted service now note wc k agent_id role e in
          rw was.deleted (
            rw was.logged (
              subst
                (λ x.
                  Accounted (lookup key (delete x wc.variables))
                    (last_for key (wc.mutations ++ m ∷ [])))
                was.logged_key (Accounted-delete wc.variables wc.mutations key m (h key))))
  agrees_after_call wc (acl_call acl) h = h

  agrees_after_calls :
      (wc : WorkspaceContext) (calls : List (Call service))
      → LogAgrees wc
      → LogAgrees (run_calls service wc calls)
  unfolding run_calls
  agrees_after_calls wc [] h = h
  agrees_after_calls wc (c ∷ rest) h =
      agrees_after_calls (apply_call service wc c) rest (agrees_after_call wc c h)

  -- After any calls on a new context, failing ones included, the last mutation of each key that holds
  -- a variable has that variable's value, version and author.
  pub log_accounts : (calls : List (Call service)) → LogAgrees (run_calls service new_context calls)
  log_accounts calls = agrees_after_calls new_context calls (λ key. unfold get lookup in tt)

  -- Each set that succeeds numbers the variable one past the version that was there, or 1, and the
  -- variable that it returns is the one that is stored.
  pub set_version :
      (now : ℕ) (note : String) (wc : WorkspaceContext) (key value agent_id : String)
      (role : AgentRole) (visibility : Option ContextVisibility) {v : ContextVariable}
      {wc' : WorkspaceContext}
      → set service now note wc key value agent_id role visibility ≡ ok (v, wc')
      → (get wc' key ≡ some v)
        × (v.version ≡ next_version (get wc key))
        × (v.value ≡ value)
        × (v.updated_by ≡ agent_id)
  unfolding get written
  set_version now note wc key value agent_id role visibility {v} h =
      let was = set-WasSet service now note wc key value agent_id role visibility h in
      ground
        (arith, was.inserted, was.is_written, lookup-insert key key v wc.variables, eq_refl key)
