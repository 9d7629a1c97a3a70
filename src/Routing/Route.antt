-- ===== src/Routing/Route.antt =====
-- routeEvent: the candidates in their tiers, each through the guards.
use agent_gateway_control.Prelude.{
  ℕ, ◌+◌, String, Bool, ◌||◌, Option, none, some, List, [], ◌∷◌, ◌++◌, map, filter, is_some,
  if◌then◌else◌, ◌≡◌,
}
use agent_gateway_control.Prelude.Maps.{str_lt, last_with}
use agent_gateway_control.Prelude.Sort.{sort}
use agent_gateway_control.Events.Types.{type_starts_with, is_record_only_event_type}
use agent_gateway_control.Events.Envelope.{Schemas}
use agent_gateway_control.Routing.Model.{
  RoutingAgent, RoutingInput, RouteDecision, RouteReason, Route, Candidate, is_granted,
}
use agent_gateway_control.Routing.Candidates.{wait_candidates, wake_candidates}
use agent_gateway_control.Routing.Guards.{is_targeted, is_subscribed, priority_of, judge}

abbrev pub by_id : Candidate → Candidate → Bool
by_id a b = str_lt a.agent_id b.agent_id

abbrev pub candidate_id : Candidate → String
candidate_id c = c.agent_id

-- The route that a verdict makes of a candidate.
abbrev pub route : Candidate → RouteDecision × RouteReason → Route
route c (decision, reason) = record {
  agent_id = c.agent_id;
  decision = decision;
  reason = reason;
  wait_id = c.wait_id;
  priority = priority_of c;
}

-- `cascadeWakes += 1` and `threadWakes += 1` stand in the branches that grant.
abbrev pub spent : RouteDecision × RouteReason → ℕ
spent (decision, reason) = if is_granted decision then 1 else 0

module _ {J : Type 0} (schemas : Schemas J) (input : RoutingInput J) where
  -- `known.get(id)`
  abbrev pub known : String → Option RoutingAgent
  known id = last_with (λ a. a.id) id input.agents

  unfoldable pub wait_routes : List Candidate
  wait_routes = filter (λ c. is_some (known c.agent_id)) (wait_candidates schemas input)

  unfoldable pub candidates : List Candidate
  unfolding wait_routes
  candidates =
      let wakes = wake_candidates schemas input (map candidate_id wait_routes) in
      sort by_id wait_routes
      ++ (sort by_id (filter (λ c. is_targeted c.reason) wakes)
          ++ sort by_id (filter (λ c. is_subscribed c.reason) wakes))

  -- The loop over the candidates; a granted wake-up spends one of both budgets.
  unfoldable pub routes_from : ℕ → ℕ → List Candidate → List Route
  routes_from cascade_wakes thread_wakes [] = []
  routes_from cascade_wakes thread_wakes (c ∷ cs) = elim (known c.agent_id) [
    | none ↦ routes_from cascade_wakes thread_wakes cs
    | some agent ↦
        let verdict = judge schemas input cascade_wakes thread_wakes agent c in
        route c verdict
        ∷ routes_from (cascade_wakes + spent verdict) (thread_wakes + spent verdict) cs
  ]

  unfoldable pub route_event : List Route
  unfolding candidates routes_from
  route_event =
      if type_starts_with input.event.type "gateway.control."
        || is_record_only_event_type input.event.type
      then []
      else routes_from input.stats.cascade_wakes input.stats.thread_wakes candidates

  pub routes_from-unknown :
      (cascade thread : ℕ) (c : Candidate) (cs : List Candidate)
      → known c.agent_id ≡ none
      → routes_from cascade thread (c ∷ cs) ≡ routes_from cascade thread cs
  unfolding routes_from
  routes_from-unknown cascade thread c cs e = rw (e, routes_from)

  pub routes_from-known :
      (cascade thread : ℕ) (c : Candidate) (cs : List Candidate) {agent : RoutingAgent}
      → known c.agent_id ≡ some agent
      → let verdict = judge schemas input cascade thread agent c in
        routes_from cascade thread (c ∷ cs)
        ≡ route c verdict ∷ routes_from (cascade + spent verdict) (thread + spent verdict) cs
  unfolding routes_from
  routes_from-known cascade thread c cs e = rw (e, routes_from)
