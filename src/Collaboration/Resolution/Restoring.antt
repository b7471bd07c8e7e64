-- ===== src/Collaboration/Resolution/Restoring.antt =====
-- internal/core/collaboration/resolution.go: what the policies on mutations write back.
use aps.Base.{
  ℕ, ◌≤◌, String, true, ◌&&◌, ◌≡◌, ◌≢◌, subst, ◌⊎◌, inl, inr, Option, none, some, Bool-cases, List,
  [], ◌∷◌, ok, Result-cases, contains, IsIn, at_head, in_tail, lookup-insert, ltb, arith, eq_iff,
  eq_refl,
}
use aps.Collaboration.Types.{
  owner, Conflict, ConflictResolution, ResolutionStrategy, keep_first, rollback,
}
use aps.Collaboration.Context.{
  ContextVariable, ContextMutation, ContextService, WorkspaceContext, mutations_for_key, set, get,
  written,
}
use aps.Collaboration.Context.Access.{set-WasSet}
use aps.Collaboration.Resolution.{
  is_earlier, pick, mutation_for, restore, resolve_first, resolve_rollback,
}

-- A mutation of the log by an agent of the list, and none by such an agent is earlier.
pub record IsFirst (agents : List String) (log : List ContextMutation) (m : ContextMutation)
    : Type 0 where
  pub logged : IsIn m log
  pub involved : contains agents m.agent_id ≡ true
  pub first :
      (x : ContextMutation)
      → IsIn x log
      → contains agents x.agent_id ≡ true
      → m.timestamp ≤ x.timestamp

-- The loop's result, after the mutation that it starts from.
abbrev Picked :
    List String → Option ContextMutation → List ContextMutation → ContextMutation → Type 0
Picked agents none log m = IsFirst agents log m
Picked agents (some best) log m =
    (m.timestamp ≤ best.timestamp)
    × ((x : ContextMutation)
        → IsIn x log
        → contains agents x.agent_id ≡ true
        → m.timestamp ≤ x.timestamp)
    × ((m ≡ best) ⊎ (IsIn m log × (contains agents m.agent_id ≡ true)))

first_after :
    (agents : List String) (y : ContextMutation) (log : List ContextMutation) (m : ContextMutation)
    → (contains agents y.agent_id ≡ true → m.timestamp ≤ y.timestamp)
    → ((x : ContextMutation)
        → IsIn x log
        → contains agents x.agent_id ≡ true
        → m.timestamp ≤ x.timestamp)
    → (x : ContextMutation) → IsIn x (y ∷ log)
    → contains agents x.agent_id ≡ true
    → m.timestamp ≤ x.timestamp
first_after agents y log m h k _ at_head e = h e
first_after agents y log m h k x (in_tail i) e = k x i e

placed_after :
    (y : ContextMutation) (log : List ContextMutation) (m : ContextMutation)
    → (m ≡ y) ⊎ IsIn m log
    → IsIn m (y ∷ log)
placed_after y log m (inl e) = subst (λ x. IsIn m (x ∷ log)) e at_head
placed_after y log m (inr i) = in_tail i

pick-Picked :
    (agents : List String) (best : Option ContextMutation) (log : List ContextMutation)
    (m : ContextMutation)
    → pick is_earlier agents best log ≡ some m
    → Picked agents best log m
unfolding pick
pick-Picked agents none [] m h = absurd (ground (arith, h))
pick-Picked agents (some best) [] m h =
    (ground (arith, h), (λ x i e. elim i [ ]), inl (ground (arith, h)))
pick-Picked agents none (y ∷ log) m h = elim (Bool-cases (contains agents y.agent_id)) [
  | inl in_list ↦
      let (before_y, first, found) =
        pick-Picked agents (some y) log m (ground (arith, in_list, h)) in
      record {
        logged = placed_after y log m (elim found [ inl same ↦ inl same | inr f ↦ inr f.0 ]);
        involved = elim found [ inl same ↦ ground (arith, same, in_list) | inr f ↦ f.1 ];
        first = first_after agents y log m (λ e. before_y) first;
      }
  | inr outside ↦
      let rest = pick-Picked agents none log m (ground (arith, outside, h)) in
      record {
        logged = in_tail rest.logged;
        involved = rest.involved;
        first = first_after agents y log m (λ e. absurd (ground (arith, e, outside))) rest.first;
      }
]
pick-Picked agents (some best) (y ∷ log) m h =
    elim (Bool-cases (contains agents y.agent_id && ltb y.timestamp best.timestamp)) [
      | inl taken ↦
          let (before_y, first, found) =
            pick-Picked agents (some y) log m (ground (arith, taken, h)) in
          (
            ground (arith, before_y, taken),
            first_after agents y log m (λ e. before_y) first,
            inr (
              placed_after y log m (elim found [ inl same ↦ inl same | inr f ↦ inr f.0 ]),
              elim found [ inl same ↦ ground (arith, same, taken) | inr f ↦ f.1 ],
            ),
          )
      | inr kept ↦
          let (before_best, first, found) =
            pick-Picked agents (some best) log m (ground (arith, kept, h)) in
          (
            before_best,
            first_after agents y log m (λ e. ground (arith, e, before_best, kept)) first,
            elim found [ inl same ↦ inl same | inr f ↦ inr (in_tail f.0, f.1) ],
          )
    ]

-- The mutation that keep-first and rollback go by is the first, in the whole log of the key, by an agent of the
-- conflict.
mutation_for-IsFirst :
    {E : Type 0} (conflict : Conflict) (wc : WorkspaceContext) (m : ContextMutation)
    → mutation_for {E = E} is_earlier conflict wc ≡ ok m
    → IsFirst conflict.agent_ids (mutations_for_key wc conflict.resource) m
unfolding mutation_for
mutation_for-IsFirst {E} conflict wc m h =
    pick-Picked conflict.agent_ids none (mutations_for_key wc conflict.resource) m
      (ground (arith, h))

module _ {E : Type 0} (service : ContextService E) where
  -- What a policy leaves: the resource has the value, written by the system, and no other variable has changed.
  pub record Restored (resource value : String) (before after : WorkspaceContext) : Type 0 where
    pub restored :
        (v : ContextVariable) × (get after resource ≡ some v)
        × (v.value ≡ value)
        × (v.updated_by ≡ "system")
    pub others : (key : String) → key ≢ resource → get after key ≡ get before key

  restore-Restored :
      (now : ℕ) (strategy : ResolutionStrategy) (conflict : Conflict) (wc : WorkspaceContext)
      (value : String) (r : ConflictResolution) (wc' : WorkspaceContext)
      → restore service now strategy conflict wc value ≡ ok (r, wc')
      → Restored conflict.resource value wc wc'
  unfolding restore get written
  restore-Restored now strategy conflict wc value r wc' h =
      elim (Result-cases (set service now "" wc conflict.resource value "system" owner none)) [
        | inl (e, failed) ↦ absurd (ground (arith, h, failed))
        | inr (result, done) ↦
            let was =
              set-WasSet service now "" wc conflict.resource value "system" owner none done in
            let same : result.1 ≡ wc' = ground (arith, h, done) in
            let at = λ (key : String). lookup-insert conflict.resource key result.0 wc.variables in
            record {
              restored = (
                result.0,
                ground (arith, same, was.inserted, at conflict.resource, eq_refl conflict.resource),
                ground (arith, was.is_written),
                ground (arith, was.is_written),
              );
              others = λ key other.
                  ground (arith, same, was.inserted, at key, other, eq_iff conflict.resource key);
            }
      ]

  -- keep-first, where it succeeds, writes back the value of the first mutation of the resource, in the whole log, by
  -- an agent of the conflict, and changes no other variable.
  pub resolve_first_restores :
      (now : ℕ) (conflict : Conflict) (wc : WorkspaceContext) (r : ConflictResolution)
      (wc' : WorkspaceContext)
      → resolve_first service now conflict wc ≡ ok (r, wc')
      → (m : ContextMutation) × IsFirst conflict.agent_ids
          (mutations_for_key wc conflict.resource)
          m
        × Restored conflict.resource m.new_value wc wc'
  unfolding resolve_first
  resolve_first_restores now conflict wc r wc' h =
      elim (Result-cases (mutation_for {E = E} is_earlier conflict wc)) [
        | inl (e, failed) ↦ absurd (ground (arith, h, failed))
        | inr (m, found) ↦ (
          m,
          mutation_for-IsFirst conflict wc m found,
          restore-Restored now keep_first conflict wc m.new_value r wc' (ground (arith, h, found)),
        )
      ]

  -- rollback, where it succeeds, writes back the value that the resource had before the first mutation of it, in the
  -- whole log, by an agent of the conflict, and changes no other variable.
  pub resolve_rollback_restores :
      (now : ℕ) (conflict : Conflict) (wc : WorkspaceContext) (r : ConflictResolution)
      (wc' : WorkspaceContext)
      → resolve_rollback service now conflict wc ≡ ok (r, wc')
      → (m : ContextMutation) × IsFirst conflict.agent_ids
          (mutations_for_key wc conflict.resource)
          m
        × Restored conflict.resource m.old_value wc wc'
  unfolding resolve_rollback
  resolve_rollback_restores now conflict wc r wc' h =
      elim (Result-cases (mutation_for {E = E} is_earlier conflict wc)) [
        | inl (e, failed) ↦ absurd (ground (arith, h, failed))
        | inr (m, found) ↦ (
          m,
          mutation_for-IsFirst conflict wc m found,
          restore-Restored now rollback conflict wc m.old_value r wc' (ground (arith, h, found)),
        )
      ]
