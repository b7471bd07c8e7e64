-- ===== src/Collaboration/Capabilities/Tests.antt =====
-- internal/core/collaboration/capability.go: two agents, one of which registers again.
use aps.Base.{◌≡◌, refl, List, [], ◌∷◌, times, lookup, insert}
use aps.Collaboration.Capabilities.{
  remove_profile, add_capabilities, find_by_capability, list_capabilities, CapabilityCall,
  register_agent, unregister_agent, index_after,
}
use aps.Collaboration.Capabilities.Index.{declared, found_agents, find_by_capability_lem}

abbrev calls : List CapabilityCall
calls =
    register_agent "ann" ("build" ∷ "test" ∷ [])
    ∷ register_agent "bob" ("test" ∷ [])
    ∷ register_agent "ann" ("review" ∷ "review" ∷ [])
    ∷ unregister_agent "cid"
    ∷ []

-- A capability that is named twice finds its agent twice.
index_of_calls : index_after [] calls ≡ ("test", "bob" ∷ []) ∷ ("review", "ann" ∷ "ann" ∷ []) ∷ []
unfolding index_after remove_profile add_capabilities lookup insert
index_of_calls = refl

capabilities_of_ann : list_capabilities (index_after [] calls) "ann" ≡ "review" ∷ []
unfolding list_capabilities index_after remove_profile add_capabilities lookup insert
capabilities_of_ann = refl

find_by_capability_lem_example :
    times "ann" (found_agents (find_by_capability (index_after [] calls) "review"))
    ≡ times "review" (declared [] calls "ann")
find_by_capability_lem_example = find_by_capability_lem calls "review" "ann"
