-- ===== src/Collaboration/Workspace/Ownership.antt =====
-- internal/core/collaboration/workspace.go: who is a member after a call, and what `IsOwner`, `HasAgent`
-- and `GetAgent` say of the same list.
use aps.Base.{
  ℕ, String, Bool, true, false, ◌≡◌, inl, inr, refl, Option, none, some, List, [], ◌∷◌, ◌++◌, ◌&&◌,
  ◌||◌, Result, ok, err, is_ok, leb, any, find, arith, eq_iff, eq_refl, ◌==◌, Bool-cases,
  Option-cases, count-append, not,
}
use aps.Collaboration.Types.{AgentRole, is_owner_role, AgentInfo}
use aps.Collaboration.Workspace.{
  Workspace, agent_online, is_member, owner_count, remove_first, add_agent, remove_agent, get_agent,
  has_agent, is_owner,
}
use aps.Collaboration.Workspace.Members.{IsSound, Distinct}

any-member-append :
    (q : String) (xs : List AgentInfo) (a : AgentInfo)
    → any (is_member q) (xs ++ a ∷ []) ≡ (any (is_member q) xs || is_member q a)
any-member-append q [] a = ground arith
any-member-append q (x ∷ xs) a = ground (arith, any-member-append q xs a)

-- After a join, the members are those before and the one that joined.
pub has_agent-add_agent :
    (now : ℕ) (ws : Workspace) (p q : String) (role : AgentRole) {a : AgentInfo} {ws' : Workspace}
    → add_agent now ws p role ≡ ok (a, ws')
    → has_agent ws' q ≡ (has_agent ws q || (p == q))
unfolding add_agent has_agent
has_agent-add_agent now ws p q role h =
    ground (arith, any-member-append q ws.agents (agent_online now p role))

any-member-remove_first :
    (p q : String) (xs : List AgentInfo)
    → Distinct xs
    → any (is_member q) (remove_first p xs) ≡ (any (is_member q) xs && not (p == q))
unfolding remove_first
any-member-remove_first p q [] d = refl
any-member-remove_first p q (x ∷ xs) d = elim (Bool-cases (is_member p x)) [
  | inl e ↦ rw e (ground (arith, eq_iff p q, eq_iff x.profile_id p, eq_iff x.profile_id q, d.0))
  | inr e ↦ rw e (
      ground (
        arith,
        eq_iff p q,
        eq_iff x.profile_id p,
        eq_iff x.profile_id q,
        any-member-remove_first p q xs d.1,
      ))
]

-- After a removal, the members are those before without the one that was named.
pub has_agent-remove_agent :
    (now : ℕ) (ws : Workspace) (p q : String) {ws' : Workspace}
    → IsSound ws
    → remove_agent now ws p ≡ ok ws'
    → has_agent ws' q ≡ (has_agent ws q && not (p == q))
unfolding remove_agent has_agent
has_agent-remove_agent now ws p q v h = elim (Option-cases (find (is_member p) ws.agents)) [
  | inl e ↦ ground arith
  | inr (a, e) ↦ ground (arith, any-member-remove_first p q ws.agents v.distinct)
]

find-append :
    (p : String) (xs : List AgentInfo) (a : AgentInfo)
    → any (is_member p) xs ≡ false
    → is_member p a ≡ true
    → (find (is_member p) (xs ++ a ∷ []) ≡ some a) × (remove_first p (xs ++ a ∷ []) ≡ xs)
unfolding remove_first
find-append p [] a h k = ground arith
find-append p (x ∷ xs) a h k = ground (arith, find-append p xs a)

-- Leaving undoes joining: in a sound workspace an agent that has just been added, whatever its role,
-- can be removed, and the member list is then what it was.
pub remove_agent-add_agent :
    (now later : ℕ) (ws : Workspace) (p : String) (role : AgentRole) {a : AgentInfo}
    {ws' : Workspace}
    → IsSound ws
    → add_agent now ws p role ≡ ok (a, ws')
    → remove_agent later ws' p ≡ ok (record ws { updated_at = later })
unfolding add_agent remove_agent
remove_agent-add_agent now later ws p role v h =
    let b = agent_online now p role in
    ground (
      arith,
      eq_refl p,
      find-append p ws.agents b,
      count-append (λ (c : AgentInfo). is_owner_role c.role) ws.agents (b ∷ []),
    )

no_owner_of_absent :
    (q : String) (xs : List AgentInfo)
    → any (is_member q) xs ≡ false
    → any (λ a. is_member q a && is_owner_role a.role) xs ≡ false
no_owner_of_absent q [] h = refl
no_owner_of_absent q (x ∷ xs) h = ground (arith, no_owner_of_absent q xs)

abbrev owner_entry : Option AgentInfo → Bool
owner_entry none = false
owner_entry (some a) = is_owner_role a.role

owner-find :
    (q : String) (xs : List AgentInfo)
    → Distinct xs
    → any (λ a. is_member q a && is_owner_role a.role) xs ≡ owner_entry (find (is_member q) xs)
owner-find q [] d = refl
owner-find q (x ∷ xs) d =
    ground (arith, owner-find q xs d.1, no_owner_of_absent q xs, eq_iff x.profile_id q, d.0)

abbrev is_some {ℓ} : {A : Type ℓ} → Option A → Bool
is_some none = false
is_some (some a) = true

any-find :
    (q : String) (xs : List AgentInfo) → any (is_member q) xs ≡ is_some (find (is_member q) xs)
any-find q [] = refl
any-find q (x ∷ xs) = ground (arith, any-find q xs)

abbrev pub says_owner : {E : Type 0} → Result E AgentInfo → Bool
says_owner (ok a) = is_owner_role a.role
says_owner (err e) = false

-- In a sound workspace `IsOwner` and `GetAgent` agree: a profile is an owner exactly if `GetAgent` finds
-- it with the role of an owner.
pub is_owner-get_agent :
    (ws : Workspace) (q : String) → IsSound ws → is_owner ws q ≡ says_owner (get_agent ws q)
unfolding is_owner get_agent
is_owner-get_agent ws q v = ground (arith, owner-find q ws.agents v.distinct)

-- In a sound workspace `RemoveAgent` succeeds exactly if the profile is a member and is not the only
-- owner.
pub remove_agent_succeeds :
    (now : ℕ) (ws : Workspace) (p : String)
    → IsSound ws
    → is_ok (remove_agent now ws p)
      ≡ (has_agent ws p && not (is_owner ws p && leb (owner_count ws.agents) 1))
unfolding remove_agent has_agent is_owner
remove_agent_succeeds now ws p v =
    ground (arith, owner-find p ws.agents v.distinct, any-find p ws.agents)
