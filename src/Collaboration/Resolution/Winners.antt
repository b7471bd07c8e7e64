-- ===== src/Collaboration/Resolution/Winners.antt =====
-- internal/core/collaboration/resolution.go: whom PriorityPolicy chooses.
use aps.Base.{
  ℕ, Bool, true, Result-cases, ◌+◌, ◌≤◌, ◌<◌, String, false, ◌≡◌, refl, ◌⊎◌, inl, inr, List, [],
  ◌∷◌, ok, err, times, ltb, ◌==◌, if◌then◌else◌, arith, eq_iff, Bool-cases, sym,
}
use aps.Collaboration.Types.{
  AgentRole, owner, contributor, observer, other, AgentInfo, Conflict, priority,
}
use aps.Collaboration.Workspace.{Workspace, get_agent}
use aps.Collaboration.Resolution.{role_priority, rank_agent, winner_among, settle_by_role}

-- One more than the priority of an agent's role, and 0 for one who is not in the workspace.
abbrev standing : Workspace → String → ℕ
standing ws id = elim (get_agent ws id) [ err e ↦ 0 | ok agent ↦ role_priority agent.role + 1 ]

rank_agent_lem :
    (ws : Workspace) (best : String × ℕ) (id : String)
    → rank_agent ws best id ≡ (if ltb best.1 (standing ws id) then (id, standing ws id) else best)
unfolding rank_agent
rank_agent_lem ws best id = ground arith

-- The winner stands at least as high as each agent of the list, and is one of them or the one of before.
winner_among_lem :
    (ws : Workspace) (best : String × ℕ) (ids : List String)
    → let result = winner_among ws best ids in
      (best.1 ≤ result.1)
      × ((x : String) → 0 < times x ids → standing ws x ≤ result.1)
      × ((result ≡ best) ⊎ ((0 < times result.0 ids) × (standing ws result.0 ≡ result.1)))
unfolding winner_among
winner_among_lem ws best [] = (omega arith, (λ x h. absurd (omega (arith, h))), inl refl)
winner_among_lem ws best (id ∷ ids) =
    let next = rank_agent ws best id in
    let step = rank_agent_lem ws best id in
    let (grown, highest, found) = winner_among_lem ws next ids in
    let result = winner_among ws next ids in
    (
      ground (arith, grown, step),
      λ x h. ground (arith, h, grown, step, highest x, eq_iff id x),
      elim found [
        | inr (placed, stands) ↦ inr (ground (arith, placed), stands)
        | inl same ↦ elim (Bool-cases (ltb best.1 (standing ws id))) [
          | inr lower ↦ inl (ground (arith, same, step, lower))
          | inl higher ↦
              let named : result.0 ≡ id = ground (arith, same, step, higher) in
              let stands : result.1 ≡ standing ws id = ground (arith, same, step, higher) in
              inr (ground (arith, named, eq_iff id result.0), rw named (sym stands))
        ]
      ],
    )

-- owner > contributor > observer, as the comment of PriorityPolicy has it, and the three above any other role.
abbrev pub outranks : AgentRole → AgentRole → Bool
outranks owner owner = false
outranks owner _ = true
outranks contributor observer = true
outranks contributor (other s) = true
outranks observer (other s) = true
outranks _ _ = false

not_outranked : (a b : AgentRole) → role_priority a ≤ role_priority b → outranks a b ≡ false
not_outranked owner owner h = refl
not_outranked owner contributor h = absurd (omega (arith, h))
not_outranked owner observer h = absurd (omega (arith, h))
not_outranked owner (other s) h = absurd (omega (arith, h))
not_outranked contributor owner h = refl
not_outranked contributor contributor h = refl
not_outranked contributor observer h = absurd (omega (arith, h))
not_outranked contributor (other s) h = absurd (omega (arith, h))
not_outranked observer owner h = refl
not_outranked observer contributor h = refl
not_outranked observer observer h = refl
not_outranked observer (other s) h = absurd (omega (arith, h))
not_outranked (other s) owner h = refl
not_outranked (other s) contributor h = refl
not_outranked (other s) observer h = refl
not_outranked (other s) (other t) h = refl

standing-not_outranked :
    (ws : Workspace) (x winner : String) (a b : AgentInfo)
    → get_agent ws x ≡ ok a
    → get_agent ws winner ≡ ok b
    → standing ws x ≤ standing ws winner
    → outranks a.role b.role ≡ false
standing-not_outranked ws x winner a b e f h = not_outranked a.role b.role (ground (arith, e, f, h))

-- PriorityPolicy: where no agent of the conflict has the empty ID and one of them is in the workspace, it names an
-- agent of the conflict who is in the workspace, and no agent of the conflict who is there has a role above his in
-- the order owner, contributor, observer, any other.
pub settle_by_role_highest :
    {E : Type 0} (now : ℕ) (conflict : Conflict) (ws : Workspace) (member : String) (m : AgentInfo)
    → times "" conflict.agent_ids ≡ 0
    → 0 < times member conflict.agent_ids
    → get_agent ws member ≡ ok m
    → (winner : String) × (b : AgentInfo) × (settle_by_role {E = E} now conflict ws
        ≡ ok (record { strategy = priority; resolved_by = winner; timestamp = now }))
      × (0 < times winner conflict.agent_ids)
      × (get_agent ws winner ≡ ok b)
      × ((x : String) (a : AgentInfo)
          → 0 < times x conflict.agent_ids
          → get_agent ws x ≡ ok a
          → outranks a.role b.role ≡ false)
unfolding settle_by_role
settle_by_role_highest {E} now conflict ws member m named placed there =
    let ids = conflict.agent_ids in
    let result = winner_among ws ("", 0) ids in
    let (grown, highest, found) = winner_among_lem ws ("", 0) ids in
    let stands : 0 < standing ws member = ground (arith, there) in
    elim found [
      | inl same ↦ absurd (ground (arith, same, highest member placed, stands))
      | inr (inside, height) ↦
          let real : (result.0 == "") ≡ false = ground (arith, inside, named, eq_iff result.0 "") in
          let above : 0 < standing ws result.0 =
            ground (arith, height, highest member placed, stands) in
          elim (Result-cases (get_agent ws result.0)) [
            | inl (e, missing) ↦ absurd (ground (arith, missing, above))
            | inr (b, present) ↦ (
              result.0,
              b,
              ground (arith, real, placed),
              inside,
              present,
              λ x a h e.
                  standing-not_outranked ws x result.0 a b e present
                    (ground (arith, height, highest x h)),
            )
          ]
    ]
