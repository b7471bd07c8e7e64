-- ===== src/Collaboration/Workspace/Members.antt =====
-- internal/core/collaboration/workspace.go: what the member list keeps. The proofs that every
-- operation keeps one entry for a profile, an owner, and the capacity.
use aps.Base.{
  ℕ, ◌+◌, ◌≤◌, ◌<◌, String, Bool, true, false, ◌≡◌, inl, inr, refl, some, List, [], ◌∷◌, ◌++◌, ok,
  length, any, find, arith, eq_iff, Bool-cases, Option-cases, length-append, count-append, ◌∙◌,
}
use aps.Collaboration.Types.{AgentRole, is_owner_role, AgentInfo, WorkspaceConfig, WorkspaceState}
use aps.Collaboration.Workspace.{
  Workspace, agent_online, is_member, owner_count, remove_first, update_first, add_agent,
  remove_agent, set_agent_role, update_agent_status, set_state, new_workspace,
}

-- No two entries have the same profile.
abbrev pub Distinct : List AgentInfo → Type 0
Distinct [] = Unit
Distinct (a ∷ rest) = (any (is_member a.profile_id) rest ≡ false) × Distinct rest

pub record IsSound (ws : Workspace) : Type 0 where
  pub distinct : Distinct ws.agents
  pub owned : 0 < owner_count ws.agents
  pub within : 0 < ws.config.max_agents → length ws.agents ≤ ws.config.max_agents

any-append :
    (p : AgentInfo → Bool) (xs : List AgentInfo) (a : AgentInfo)
    → p a ≡ false
    → any p xs ≡ false
    → any p (xs ++ a ∷ []) ≡ false
any-append p [] a h k = ground arith
any-append p (x ∷ xs) a h k = ground (arith, any-append p xs a h)

Distinct-append :
    (xs : List AgentInfo) (a : AgentInfo)
    → Distinct xs
    → any (is_member a.profile_id) xs ≡ false
    → Distinct (xs ++ a ∷ [])
Distinct-append [] a d h = (refl, tt)
Distinct-append (x ∷ xs) a d h = (
  any-append (is_member x.profile_id) xs a
      (ground (arith, eq_iff a.profile_id x.profile_id, eq_iff x.profile_id a.profile_id)) d.0,
  Distinct-append xs a d.1 (ground arith),
)

any-remove_first :
    (p : AgentInfo → Bool) (profile_id : String) (xs : List AgentInfo)
    → any p xs ≡ false
    → any p (remove_first profile_id xs) ≡ false
unfolding remove_first
any-remove_first p profile_id [] h = refl
any-remove_first p profile_id (x ∷ xs) h = ground (arith, any-remove_first p profile_id xs)

Distinct-remove_first :
    (profile_id : String) (xs : List AgentInfo)
    → Distinct xs
    → Distinct (remove_first profile_id xs)
unfolding remove_first
Distinct-remove_first profile_id [] d = tt
Distinct-remove_first profile_id (x ∷ xs) d = elim (Bool-cases (is_member profile_id x)) [
  | inl e ↦ rw e d.1
  | inr e ↦ rw e (any-remove_first _ profile_id xs d.0, Distinct-remove_first profile_id xs d.1)
]

length-remove_first :
    (profile_id : String) (xs : List AgentInfo) → length (remove_first profile_id xs) ≤ length xs
unfolding remove_first
length-remove_first profile_id [] = omega arith
length-remove_first profile_id (x ∷ xs) = ground (arith, length-remove_first profile_id xs)

length-update_first :
    (profile_id : String) (f : AgentInfo → AgentInfo) (xs : List AgentInfo)
    → length (update_first profile_id f xs) ≡ length xs
unfolding update_first
length-update_first profile_id f [] = refl
length-update_first profile_id f (x ∷ xs) = ground (arith, length-update_first profile_id f xs)

abbrev one_if : Bool → ℕ
one_if true = 1
one_if false = 0

-- The owners that are left are those there were, less the entry taken out.
owner_count-remove_first :
    (profile_id : String) (xs : List AgentInfo) {a : AgentInfo}
    → find (is_member profile_id) xs ≡ some a
    → owner_count (remove_first profile_id xs) + one_if (is_owner_role a.role) ≡ owner_count xs
unfolding remove_first
owner_count-remove_first profile_id [] h = cc
owner_count-remove_first profile_id (x ∷ xs) {a} h = elim (Bool-cases (is_member profile_id x)) [
  | inl e ↦ ground arith
  | inr e ↦ ground (arith, owner_count-remove_first profile_id xs {a = a})
]

owner_count-set_role :
    (profile_id : String) (role : AgentRole) (xs : List AgentInfo) {a : AgentInfo}
    → find (is_member profile_id) xs ≡ some a
    → owner_count (update_first profile_id (λ b. record b { role = role }) xs)
        + one_if (is_owner_role a.role)
      ≡ owner_count xs + one_if (is_owner_role role)
unfolding update_first
owner_count-set_role profile_id role [] h = cc
owner_count-set_role profile_id role (x ∷ xs) {a} h = elim (Bool-cases (is_member profile_id x)) [
  | inl e ↦ ground arith
  | inr e ↦ ground (arith, owner_count-set_role profile_id role xs {a = a})
]

module _ (f : AgentInfo → AgentInfo)
    (same : (b : AgentInfo) → (f b).profile_id ≡ b.profile_id) where
  any-update_first :
      (q profile_id : String) (xs : List AgentInfo)
      → any (is_member q) (update_first profile_id f xs) ≡ any (is_member q) xs
  unfolding update_first
  any-update_first q profile_id [] = refl
  any-update_first q profile_id (x ∷ xs) = elim (Bool-cases (is_member profile_id x)) [
    | inl e ↦ rw (e, same x)
    | inr e ↦ rw (e, any-update_first q profile_id xs)
  ]

  Distinct-update_first :
      (profile_id : String) (xs : List AgentInfo)
      → Distinct xs
      → Distinct (update_first profile_id f xs)
  unfolding update_first
  Distinct-update_first profile_id [] d = tt
  Distinct-update_first profile_id (x ∷ xs) d = elim (Bool-cases (is_member profile_id x)) [
    | inl e ↦ rw (e, same x) d
    | inr e ↦
        rw e (
          any-update_first x.profile_id profile_id xs ∙ d.0,
          Distinct-update_first profile_id xs d.1,
        )
  ]

-- A status write leaves the roles alone.
owner_count-set_status :
    (profile_id status : String) (now : ℕ) (xs : List AgentInfo)
    → owner_count (update_first profile_id (λ b. record b { status = status; last_seen = now }) xs)
      ≡ owner_count xs
unfolding update_first
owner_count-set_status profile_id status now [] = refl
owner_count-set_status profile_id status now (x ∷ xs) =
    ground (arith, owner_count-set_status profile_id status now xs)

pub new_workspace-IsSound :
    (now : ℕ) (id : String) (config : WorkspaceConfig) {ws : Workspace}
    → new_workspace now id config ≡ ok ws
    → IsSound ws
unfolding new_workspace
new_workspace-IsSound now id config {ws} h = ground arith

pub add_agent-IsSound :
    (now : ℕ) (ws : Workspace) (profile_id : String) (role : AgentRole) {a : AgentInfo}
    {ws' : Workspace}
    → IsSound ws
    → add_agent now ws profile_id role ≡ ok (a, ws')
    → IsSound ws'
unfolding add_agent
add_agent-IsSound now ws profile_id role v h = ground (
  arith,
  Distinct-append ws.agents (agent_online now profile_id role) v.distinct,
  length-append ws.agents (agent_online now profile_id role ∷ []),
  count-append (λ (a : AgentInfo). is_owner_role a.role) ws.agents
      (agent_online now profile_id role ∷ []),
)

pub remove_agent-IsSound :
    (now : ℕ) (ws : Workspace) (profile_id : String) {ws' : Workspace}
    → IsSound ws
    → remove_agent now ws profile_id ≡ ok ws'
    → IsSound ws'
unfolding remove_agent
remove_agent-IsSound now ws profile_id v h =
    elim (Option-cases (find (is_member profile_id) ws.agents)) [
      | inl e ↦ ground arith
      | inr (a, e) ↦ ground (
        arith,
        Distinct-remove_first profile_id ws.agents v.distinct,
        length-remove_first profile_id ws.agents,
        owner_count-remove_first profile_id ws.agents e,
      )
    ]

pub set_agent_role-IsSound :
    (now : ℕ) (ws : Workspace) (profile_id : String) (role : AgentRole) {ws' : Workspace}
    → IsSound ws
    → set_agent_role now ws profile_id role ≡ ok ws'
    → IsSound ws'
unfolding set_agent_role
set_agent_role-IsSound now ws profile_id role v h =
    let f = λ (b : AgentInfo). record b { role = role } in
    elim (Option-cases (find (is_member profile_id) ws.agents)) [
      | inl e ↦ ground arith
      | inr (a, e) ↦ ground (
        arith,
        Distinct-update_first f (λ b. refl) profile_id ws.agents v.distinct,
        length-update_first profile_id f ws.agents,
        owner_count-set_role profile_id role ws.agents e,
      )
    ]

pub update_agent_status-IsSound :
    (now : ℕ) (ws : Workspace) (profile_id status : String) {ws' : Workspace}
    → IsSound ws
    → update_agent_status now ws profile_id status ≡ ok ws'
    → IsSound ws'
unfolding update_agent_status
update_agent_status-IsSound now ws profile_id status v h =
    let f = λ (b : AgentInfo). record b { status = status; last_seen = now } in
    ground (
      arith,
      Distinct-update_first f (λ b. refl) profile_id ws.agents v.distinct,
      length-update_first profile_id f ws.agents,
      owner_count-set_status profile_id status now ws.agents,
    )

pub set_state-IsSound :
    (now : ℕ) (ws : Workspace) (state : WorkspaceState) {ws' : Workspace}
    → IsSound ws
    → set_state now ws state ≡ ok ws'
    → IsSound ws'
unfolding set_state
set_state-IsSound now ws state v h = ground arith
