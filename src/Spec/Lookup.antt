-- ===== src/Spec/Lookup.antt =====
-- internal/spec/lookup.go: finding hubs, agents and groups by name. A nil pointer is `none`.
use seine.Prelude.{
  String, Bool, true, false, Option, none, some, List, [], ◌∷◌, ◌==◌, if◌then◌else◌,
}
use seine.Spec.Types.{Document, Hub, Agent}

-- the loop of FindHub
unfoldable pub find_hub_in : String → List Hub → Option Hub
find_hub_in name [] = none
find_hub_in name (h ∷ hubs) = if h.name == name then some h else find_hub_in name hubs

unfoldable pub find_hub : Document → String → Option Hub
unfolding find_hub_in
find_hub d name = find_hub_in name d.spec.hubs

-- the loop of FindAgent
unfoldable pub find_agent_in : String → List Agent → Option Agent
find_agent_in name [] = none
find_agent_in name (a ∷ agents) = if a.name == name then some a else find_agent_in name agents

unfoldable pub find_agent : Document → String → Option Agent
unfolding find_agent_in
find_agent d name = find_agent_in name d.spec.agents

-- the loop of AgentsForHub
unfoldable pub anchored : String → List Agent → List Agent
anchored hub_name [] = []
anchored hub_name (a ∷ agents) =
    let rest = anchored hub_name agents in if a.hub == hub_name then a ∷ rest else rest

unfoldable pub agents_for_hub : Document → String → List Agent
unfolding anchored
agents_for_hub d hub_name = anchored hub_name d.spec.agents

-- the loop of HasGroup
unfoldable pub group_in : String → List String → Bool
group_in name [] = false
group_in name (g ∷ groups) = if g == name then true else group_in name groups

unfoldable pub has_group : Document → String → Bool
unfolding group_in
has_group d name = group_in name d.spec.groups
