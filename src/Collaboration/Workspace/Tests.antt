-- ===== src/Collaboration/Workspace/Tests.antt =====
-- Runs of the workspace's operations, and the theorems at concrete workspaces.
use aps.Base.{ℕ, ◌≡◌, refl, ◌||◌, ◌&&◌, not, List, [], ◌∷◌, ok, err, is_ok, leb, ◌==◌, ◌≤◌}
use aps.Collaboration.Types.{
  owner, contributor, observer, active, archived, WorkspaceConfig, none_given, priority,
}
use aps.Collaboration.Workspace.{
  Workspace, agent_online, new_workspace, add_agent, remove_agent, set_state, last_owner,
  at_capacity, get_agent, has_agent, is_owner, owner_count,
}
use aps.Collaboration.Workspace.Members.{IsSound, new_workspace-IsSound, add_agent-IsSound}
use aps.Collaboration.Workspace.Lifecycle.{
  apply_op, Op, add, remove, go_to, run_ops, rank, IsKnown, new_workspace-run_ops-IsSound,
  rank-run_ops, archived_final,
}
use aps.Collaboration.Workspace.Ownership.{
  has_agent-add_agent, has_agent-remove_agent, remove_agent-add_agent, is_owner-get_agent,
  says_owner, remove_agent_succeeds,
}

abbrev config : WorkspaceConfig
config = record {
  name = "team";
  description = "";
  owner_profile_id = "ann";
  default_policy = none_given;
  heartbeat_interval = 0;
  session_timeout = 0;
  max_agents = 2;
}

abbrev full_config : WorkspaceConfig
full_config = record config {
  heartbeat_interval = 10000000000;
  session_timeout = 30000000000;
  default_policy = priority;
}

abbrev team : Workspace
team = record {
  id = "w1";
  config = full_config;
  state = active;
  agents = agent_online 5 "ann" owner ∷ [];
  policy = record { default = priority; overrides = [] };
  created_at = 5;
  updated_at = 5;
}

team_created : new_workspace 5 "w1" config ≡ ok team
unfolding new_workspace
team_created = refl

team-IsSound : IsSound team
team-IsSound = new_workspace-IsSound 5 "w1" config team_created

abbrev pub pair : Workspace
pair = record team {
  agents = agent_online 5 "ann" owner ∷ agent_online 6 "bob" contributor ∷ [];
  updated_at = 6;
}

pair_made : add_agent 6 team "bob" contributor ≡ ok (agent_online 6 "bob" contributor, pair)
unfolding add_agent
pair_made = refl

full_up : add_agent 7 pair "cyd" observer ≡ err at_capacity
unfolding add_agent
full_up = refl

sole_owner_stays : remove_agent 7 pair "ann" ≡ err last_owner
unfolding remove_agent
sole_owner_stays = refl

abbrev script : List (ℕ × Op)
script =
    (6, add "bob" contributor) ∷ (7, remove "ann") ∷ (8, go_to archived) ∷ (9, go_to active) ∷ []

archived_after : (run_ops team script).state ≡ archived
unfolding run_ops apply_op add_agent remove_agent set_state
archived_after = refl

new_workspace-run_ops-IsSound_example : IsSound (run_ops team script)
new_workspace-run_ops-IsSound_example =
    new_workspace-run_ops-IsSound 5 "w1" config script team_created

rank-run_ops_at :
    (rank active ≤ rank (run_ops team script).state) × IsKnown (run_ops team script).state
rank-run_ops_at = rank-run_ops team script refl

archived_final_at : (run_ops (record team { state = archived }) script).state ≡ archived
archived_final_at = archived_final (record team { state = archived }) script refl

has_agent-add_agent_at : has_agent pair "bob" ≡ (has_agent team "bob" || ("bob" == "bob"))
has_agent-add_agent_at = has_agent-add_agent 6 team "bob" "bob" contributor pair_made

has_agent-remove_agent_at :
    has_agent (record pair { agents = agent_online 5 "ann" owner ∷ []; updated_at = 7 }) "bob"
    ≡ (has_agent pair "bob" && not ("bob" == "bob"))
unfolding remove_agent
has_agent-remove_agent_at =
    has_agent-remove_agent 7 pair "bob" "bob"
      (add_agent-IsSound 6 team "bob" contributor team-IsSound pair_made) refl

remove_agent-add_agent_at : remove_agent 7 pair "bob" ≡ ok (record team { updated_at = 7 })
remove_agent-add_agent_at = remove_agent-add_agent 6 7 team "bob" contributor team-IsSound pair_made

ann_is_owner : is_owner team "ann" ≡ says_owner (get_agent team "ann")
ann_is_owner = is_owner-get_agent team "ann" team-IsSound

remove_agent_succeeds_at :
    is_ok (remove_agent 7 team "ann")
    ≡ (has_agent team "ann" && not (is_owner team "ann" && leb (owner_count team.agents) 1))
remove_agent_succeeds_at = remove_agent_succeeds 7 team "ann" team-IsSound
