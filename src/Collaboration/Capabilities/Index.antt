-- ===== src/Collaboration/Capabilities/Index.antt =====
-- internal/core/collaboration/capability.go: what the index holds after any calls.
use aps.Base.{
  ◌+◌, String, false, not, ◌≡◌, refl, ap, ◌∙◌, inl, inr, List, [], ◌∷◌, ◌++◌, map, keep, times,
  times-append, Option-cases, Bool-cases, Distinct, Distinct-insert, lookup, lookup-insert, insert,
  has_key, ◌==◌, if◌then◌else◌, arith, eq_iff,
}
use aps.Collaboration.Capabilities.{
  CapabilityIndex, agents_with, keep_entry, remove_profile, add_capabilities, register_capabilities,
  unregister_capabilities, CapabilityMatch, find_by_capability, CapabilityCall, register_agent,
  unregister_agent, index_after,
}

times-keep_other :
    (a p : String) (agents : List String)
    → times a (keep (λ x. not (x == p)) agents) ≡ (if a == p then 0 else times a agents)
times-keep_other a p [] = ground arith
times-keep_other a p (x ∷ agents) =
    ground (arith, times-keep_other a p agents, eq_iff x p, eq_iff a p, eq_iff x a)

has_key-keep_entry :
    (key c : String) (agents : List String) (index : CapabilityIndex)
    → (key == c) ≡ false
    → has_key c index ≡ false
    → has_key c (keep_entry key agents index) ≡ false
unfolding lookup
has_key-keep_entry key c [] index other h = h
has_key-keep_entry key c (a ∷ agents) index other h = ground (arith, other, h)

has_key-remove_profile :
    (index : CapabilityIndex) (p c : String)
    → has_key c index ≡ false
    → has_key c (remove_profile index p) ≡ false
unfolding remove_profile lookup
has_key-remove_profile [] p c h = h
has_key-remove_profile (entry ∷ index) p c h =
    has_key-keep_entry entry.0 c (keep (λ x. not (x == p)) entry.1) (remove_profile index p)
      (ground (arith, h)) (has_key-remove_profile index p c (ground (arith, h)))

Distinct-keep_entry :
    (key : String) (agents : List String) (index : CapabilityIndex)
    → has_key key index ≡ false
    → Distinct index
    → Distinct (keep_entry key agents index)
Distinct-keep_entry key [] index h d = d
Distinct-keep_entry key (a ∷ agents) index h d = (h, d)

Distinct-remove_profile :
    (index : CapabilityIndex) (p : String) → Distinct index → Distinct (remove_profile index p)
unfolding remove_profile
Distinct-remove_profile [] p d = d
Distinct-remove_profile (entry ∷ index) p d =
    Distinct-keep_entry entry.0 (keep (λ x. not (x == p)) entry.1) (remove_profile index p)
      (has_key-remove_profile index p entry.0 d.0) (Distinct-remove_profile index p d.1)

times-keep_entry :
    (a key c : String) (agents : List String) (index : CapabilityIndex)
    → has_key key index ≡ false
    → times a (agents_with (keep_entry key agents index) c)
      ≡ (if key == c then times a agents else times a (agents_with index c))
unfolding lookup
times-keep_entry a key c [] index h = elim (Bool-cases (key == c)) [
  | inl here ↦ at_key ((eq_iff key c).0 here)
  | inr other ↦ ground (arith, other)
]
  where
    at_key :
        key ≡ c
        → times a (agents_with index c)
          ≡ (if key == c then times a [] else times a (agents_with index c))
    at_key same = elim (Option-cases (lookup key index)) [
      | inl absent ↦ ground (arith, same, absent)
      | inr (agents, found) ↦ absurd (ground (arith, h, found))
    ]
times-keep_entry a key c (x ∷ agents) index h = ground (arith, eq_iff key c)

times-remove_profile :
    (index : CapabilityIndex) (p c a : String)
    → Distinct index
    → times a (agents_with (remove_profile index p) c)
      ≡ (if a == p then 0 else times a (agents_with index c))
unfolding remove_profile lookup
times-remove_profile [] p c a d = ground arith
times-remove_profile (entry ∷ index) p c a d = ground (
  arith,
  times-remove_profile index p c a d.1,
  times-keep_other a p entry.1,
  times-keep_entry a entry.0 c (keep (λ x. not (x == p)) entry.1) (remove_profile index p)
      (has_key-remove_profile index p entry.0 d.0),
)

times-add_capabilities :
    (index : CapabilityIndex) (p : String) (capabilities : List String) (c a : String)
    → times a (agents_with (add_capabilities index p capabilities) c)
      ≡ times a (agents_with index c) + (if a == p then times c capabilities else 0)
unfolding add_capabilities
times-add_capabilities index p [] c a = ground arith
times-add_capabilities index p (x ∷ capabilities) c a = ground (
  arith,
  times-add_capabilities (insert x (agents_with index x ++ p ∷ []) index) p capabilities c a,
  lookup-insert x c (agents_with index x ++ p ∷ []) index,
  times-append a (agents_with index x) (p ∷ []),
  eq_iff x c,
  eq_iff a p,
  eq_iff p a,
)

Distinct-add_capabilities :
    (index : CapabilityIndex) (p : String) (capabilities : List String)
    → Distinct index
    → Distinct (add_capabilities index p capabilities)
unfolding add_capabilities
Distinct-add_capabilities index p [] d = d
Distinct-add_capabilities index p (x ∷ capabilities) d =
    Distinct-add_capabilities (insert x (agents_with index x ++ p ∷ []) index) p capabilities
      (Distinct-insert x (agents_with index x ++ p ∷ []) index d)

-- The capabilities that an agent named last, if it did not leave since.
abbrev pub declared : List String → List CapabilityCall → String → List String
declared named [] a = named
declared named (register_agent p capabilities ∷ calls) a =
    declared (if a == p then capabilities else named) calls a
declared named (unregister_agent p ∷ calls) a = declared (if a == p then [] else named) calls a

index_after-declared :
    (index : CapabilityIndex) (calls : List CapabilityCall) (named : List String) (c a : String)
    → Distinct index
    → times a (agents_with index c) ≡ times c named
    → times a (agents_with (index_after index calls) c) ≡ times c (declared named calls a)
unfolding index_after
index_after-declared index [] named c a d h = h
index_after-declared index (register_agent p capabilities ∷ calls) named c a d h =
    index_after-declared (register_capabilities index p capabilities) calls
      (if a == p then capabilities else named) c a
      (Distinct-add_capabilities (remove_profile index p) p capabilities
        (Distinct-remove_profile index p d))
      (ground (
        arith,
        h,
        times-add_capabilities (remove_profile index p) p capabilities c a,
        times-remove_profile index p c a d,
      ))
index_after-declared index (unregister_agent p ∷ calls) named c a d h =
    index_after-declared (unregister_capabilities index p) calls (if a == p then [] else named) c a
      (Distinct-remove_profile index p d) (ground (arith, h, times-remove_profile index p c a d))

abbrev pub found_agents : List CapabilityMatch → List String
found_agents matches = map (λ m. m.profile_id) matches

found_agents-map :
    (agents : List String) (c : String)
    → found_agents (map (λ a. record { profile_id = a; capability = c }) agents) ≡ agents
found_agents-map [] c = refl
found_agents-map (a ∷ agents) c = ap (λ l. a ∷ l) (found_agents-map agents c)

-- After any calls of Register and Unregister on a new registry, the search for a capability finds an agent as often as it
-- named this capability in its last Register, and not at all if it was unregistered since. What other agents registered
-- makes no difference.
pub find_by_capability_lem :
    (calls : List CapabilityCall) (c a : String)
    → times a (found_agents (find_by_capability (index_after [] calls) c))
      ≡ times c (declared [] calls a)
unfolding find_by_capability lookup
find_by_capability_lem calls c a =
    ap (times a) (found_agents-map (agents_with (index_after [] calls) c) c)
    ∙ index_after-declared [] calls [] c a tt refl
