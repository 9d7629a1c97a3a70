-- ===== src/Routing/Tests.antt =====
-- One thread reply that answers an agent's wait and addresses another agent.
use agent_gateway_control.Prelude.{
  ◌+◌, ◌≤◌, max, ◌≡◌, refl, true, List, [], ◌∷◌, ◌++◌, All, count_if,
}
use agent_gateway_control.Prelude.Table.{HasUniqueKeys}
use agent_gateway_control.Prelude.Keys.{has_key}
use agent_gateway_control.Agents.StateMachine.{idle, waiting, disabled}
use agent_gateway_control.Events.Types.{is_record_only_event_type, is_post_type, type_starts_with}
use agent_gateway_control.Events.Envelope.{MattermostPostData, mattermost_post, event_targets}
use agent_gateway_control.Waits.Sample.{posts, reply, answer, question}
use agent_gateway_control.Routing.Model.{RoutingAgent, RoutingInput, Route}
use agent_gateway_control.Routing.Route.{route_event}
use agent_gateway_control.Routing.Budget.{is_ordinary, route_event_bounded}
use agent_gateway_control.Routing.Safety.{IsJustified, route_event-IsJustified}
use agent_gateway_control.Routing.CandidateKeys.{routed_to}
use agent_gateway_control.Routing.Coverage.{route_event-HasUniqueKeys, addressee_gets_route}
use agent_gateway_control.Routing.Tiers.{IsInTier, route_event_tiers}

abbrev developer : RoutingAgent
developer = record {
  id = "developer";
  state = waiting;
  wake_rules = [];
  channel_ids = "c1" ∷ [];
  channel_floors = [];
}

abbrev finance : RoutingAgent
finance = record developer { id = "finance"; state = disabled }

abbrev research : RoutingAgent
research = record developer { id = "research"; state = idle }

-- The reply also addresses the other two agents.
abbrev input : RoutingInput MattermostPostData
input = record {
  event = record answer {
    payload = record reply { target_agent_ids = "finance" ∷ "research" ∷ [] };
  };
  agents = research ∷ developer ∷ finance ∷ [];
  waits = question ∷ [];
  limits = record {
    max_agent_hops = 8;
    max_turns_per_cascade = 20;
    max_runs_per_agent_per_hour = 30;
  };
  stats = record {
    cascade_wakes = 19;
    runs_last_hour = [];
    duplicate_content = 0;
    pairwise_messages = [];
    thread_wakes = 4;
  };
  now = 6000;
}

abbrev decisions : List Route
decisions = route_event posts input

route_event_bounded_example :
    let n = count_if (is_ordinary posts input) decisions in
    (n + 19 ≤ max 19 20) × (n + 4 ≤ max 4 30)
route_event_bounded_example = route_event_bounded posts input

route_event-IsJustified_example : All (IsJustified posts input) decisions
route_event-IsJustified_example = route_event-IsJustified posts input

route_event-HasUniqueKeys_example : HasUniqueKeys routed_to decisions
route_event-HasUniqueKeys_example =
    route_event-HasUniqueKeys posts input ((refl, (refl, tt)), ((refl, tt), (tt, tt)))

addressee_gets_route_example : has_key routed_to "finance" decisions ≡ true
unfolding type_starts_with is_record_only_event_type event_targets mattermost_post is_post_type
addressee_gets_route_example = addressee_gets_route posts input "finance" refl refl refl

route_event_tiers_example :
    (waits : List Route) × (targets : List Route) × (subscriptions : List Route) × (decisions
      ≡ waits ++ (targets ++ subscriptions))
    × All (IsInTier posts input 10) waits
    × All (IsInTier posts input 5) targets
    × All (IsInTier posts input 0) subscriptions
route_event_tiers_example = route_event_tiers posts input
