-- ===== src/Collaboration/Capabilities.antt =====
-- internal/core/collaboration/capability.go: the index from a capability to the agents that have it. Left out: the search
-- by the words of a task, which has scores that are floats.
pub mod Index
pub mod Tests
use aps.Base.{
  String, Bool, true, false, not, Option, none, some, List, [], ◌∷◌, ◌++◌, map, keep, contains,
  Dict, lookup, insert, keys_of, ◌==◌, if◌then◌else◌,
}

-- `cr.index`
abbrev pub CapabilityIndex : Type 0
CapabilityIndex = Dict (List String)

-- `cr.index[capability]`
abbrev pub agents_with : CapabilityIndex → String → List String
agents_with index capability = elim (lookup capability index) [ none ↦ [] | some agents ↦ agents ]

-- An entry of the index; one without agents is deleted.
abbrev pub keep_entry : String → List String → CapabilityIndex → CapabilityIndex
keep_entry capability [] index = index
keep_entry capability (a ∷ agents) index = (capability, a ∷ agents) ∷ index

-- `removeAgent`
unfoldable pub remove_profile : CapabilityIndex → String → CapabilityIndex
remove_profile [] profile_id = []
remove_profile (entry ∷ index) profile_id =
    keep_entry entry.0 (keep (λ a. not (a == profile_id)) entry.1) (remove_profile index profile_id)

-- The loop of `Register`.
unfoldable pub add_capabilities : CapabilityIndex → String → List String → CapabilityIndex
add_capabilities index profile_id [] = index
add_capabilities index profile_id (c ∷ capabilities) =
    add_capabilities (insert c (agents_with index c ++ profile_id ∷ []) index) profile_id
      capabilities

-- `Register`
abbrev pub register_capabilities : CapabilityIndex → String → List String → CapabilityIndex
register_capabilities index profile_id capabilities =
    add_capabilities (remove_profile index profile_id) profile_id capabilities

-- `Unregister`
abbrev pub unregister_capabilities : CapabilityIndex → String → CapabilityIndex
unregister_capabilities index profile_id = remove_profile index profile_id

pub record CapabilityMatch : Type 0 where
  pub profile_id : String
  pub capability : String

-- `findByCapability`; the score is 1 for each.
unfoldable pub find_by_capability : CapabilityIndex → String → List CapabilityMatch
find_by_capability index capability =
    map (λ a. record { profile_id = a; capability = capability }) (agents_with index capability)

-- `ListCapabilities`
unfoldable pub list_capabilities : CapabilityIndex → String → List String
list_capabilities index profile_id =
    if profile_id == ""
    then keys_of index
    else keep (λ c. contains (agents_with index c) profile_id) (keys_of index)

pub data CapabilityCall : Type 0 where
  register_agent : String → List String → CapabilityCall
  unregister_agent : String → CapabilityCall

unfoldable pub index_after : CapabilityIndex → List CapabilityCall → CapabilityIndex
index_after index [] = index
index_after index (register_agent p capabilities ∷ calls) =
    index_after (register_capabilities index p capabilities) calls
index_after index (unregister_agent p ∷ calls) = index_after (unregister_capabilities index p) calls
