-- ===== src/Collaboration/Context/Privacy.antt =====
-- internal/core/collaboration/context.go: private variables. What other profiles can do to them, and what
-- they can learn.
use aps.Base.{
  ℕ, String, true, false, ◌≡◌, ◌≢◌, ◌↔◌, Option, none, some, List, [], ◌∷◌, err, lookup-insert,
  lookup-delete, if◌then◌else◌, arith, eq_iff, All,
}
use aps.Collaboration.Types.{AgentRole, perm_delete}
use aps.Collaboration.Context.{
  ContextVisibility, ContextVariable, ContextService, WorkspaceContext, set_acl, may, is_hidden,
  is_visible_to, set, delete_variable, not_found, permission_denied, get, get_for_profile,
}
use aps.Collaboration.Context.Access.{
  set-WasSet, delete_variable-WasDeleted, Call, set_call, delete_call, acl_call, apply_call,
  run_calls, after_set_elim, after_delete_elim,
}

module _ {E : Type 0} (service : ContextService E) where
  -- The call is made by a profile that may not see the variable; access lists are set by anyone.
  abbrev pub ByStranger : ContextVariable → Call service → Type 0
  ByStranger v (set_call now note key value agent_id role visibility) =
      is_visible_to v agent_id ≡ false
  ByStranger v (delete_call now note key agent_id role) = is_visible_to v agent_id ≡ false
  ByStranger v (acl_call acl) = Unit

  kept_by_call :
      (wc : WorkspaceContext) (c : Call service) (key : String) (v : ContextVariable)
      → ByStranger v c
      → get wc key ≡ some v
      → get (apply_call service wc c) key ≡ some v
  unfolding apply_call get set_acl
  kept_by_call wc (set_call now note k value agent_id role visibility) key v s h =
      after_set_elim service (λ x. get x key ≡ some v) wc
        (set service now note wc k value agent_id role visibility) h
        λ u wc' e.
          let was = set-WasSet service now note wc k value agent_id role visibility e in
          ground
            (arith, was.visible, was.inserted, lookup-insert k key u wc.variables, eq_iff k key)
  kept_by_call wc (delete_call now note k agent_id role) key v s h =
      after_delete_elim service (λ x. get x key ≡ some v) wc
        (delete_variable service now note wc k agent_id role) h
        λ wc' e.
          let was = (delete_variable-WasDeleted service now note wc k agent_id role e).1 in
          ground (arith, was.visible, was.deleted, lookup-delete k key wc.variables, eq_iff k key)
  kept_by_call wc (acl_call acl) key v s h = h

  -- A private variable is safe from every other profile: whatever sets and deletes they try, with
  -- whatever roles and access lists, it keeps its value, its version and its owner, and none of them
  -- can read it.
  pub private_kept :
      (wc : WorkspaceContext) (calls : List (Call service)) (key stranger : String)
      (v : ContextVariable)
      → All (ByStranger v) calls
      → is_visible_to v stranger ≡ false
      → stranger ≢ ""
      → get wc key ≡ some v
      → (get (run_calls service wc calls) key ≡ some v)
        × (get_for_profile (run_calls service wc calls) key stranger ≡ none)
  unfolding run_calls get_for_profile
  private_kept wc [] key stranger v all hidden named h =
      (h, unfold get in ground (arith, eq_iff stranger ""))
  private_kept wc (c ∷ rest) key stranger v all hidden named h =
      private_kept (apply_call service wc c) rest key stranger v all.1 hidden named
        (kept_by_call wc c key v all.0 h)

  -- A set answers "not found" exactly if the key holds a variable that the caller may not see. So the
  -- answer tells a stranger that such a variable exists.
  pub set_not_found_iff_hidden :
      (now : ℕ) (note : String) (wc : WorkspaceContext) (key value agent_id : String)
      (role : AgentRole) (visibility : Option ContextVisibility)
      → (set service now note wc key value agent_id role visibility ≡ err not_found)
        ↔ (is_hidden (get wc key) agent_id ≡ true)
  unfolding set get
  set_not_found_iff_hidden now note wc key value agent_id role visibility = ground arith

  -- A delete by a role without the permission to delete answers "not found" exactly if the key holds a
  -- variable that the caller may not see, and "permission denied" otherwise.
  pub delete_tells_hidden :
      (now : ℕ) (note : String) (wc : WorkspaceContext) (key agent_id : String) (role : AgentRole)
      → may wc key role perm_delete ≡ false
      → delete_variable service now note wc key agent_id role
        ≡ (if is_hidden (get wc key) agent_id then err not_found else err permission_denied)
  unfolding delete_variable get
  delete_tells_hidden now note wc key agent_id role h = ground arith
