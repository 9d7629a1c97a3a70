-- ===== src/Routing/Coverage.antt =====
-- The agents that the routes of an event name (packages/core/src/routing.ts).
use agent_gateway_control.Prelude.{
  ℕ, ◌+◌, String, str_eq, eq_iff, ◌≡◌, ◌∙◌, true, false, List, [], ◌∷◌, ◌++◌, All, includes, map,
  filter, is_some, arith, inl, inr, Option-cases, Bool-cases, ◌||◌,
}
use agent_gateway_control.Prelude.Sort.{sort}
use agent_gateway_control.Prelude.Table.{HasUniqueKeys}
use agent_gateway_control.Prelude.Keys.{has_key, has_key-sort, has_key-append}
use agent_gateway_control.Prelude.Maps.{last_with}
use agent_gateway_control.Events.Types.{type_starts_with, is_record_only_event_type}
use agent_gateway_control.Events.Envelope.{Schemas, event_targets}
use agent_gateway_control.Routing.Model.{RoutingAgent, RoutingInput, Candidate}
use agent_gateway_control.Routing.Candidates.{wake_candidates_from, wake_candidates}
use agent_gateway_control.Routing.Guards.{is_targeted, is_subscribed, judge}
use agent_gateway_control.Routing.Route.{
  known, by_id, candidate_id, wait_routes, candidates, spent, routes_from, routes_from-unknown,
  routes_from-known, route_event,
}
use agent_gateway_control.Routing.CandidateKeys.{
  agent_of, routed_to, agent_id_of, candidates-HasUniqueKeys, includes-has_key,
}

module _ {J : Type 0} (schemas : Schemas J) (input : RoutingInput J) where
  routes_differ :
      (cascade thread : ℕ) (id : String) (cs : List Candidate)
      → All (λ c. str_eq c.agent_id id ≡ false) cs
      → All (λ r. str_eq r.agent_id id ≡ false) (routes_from schemas input cascade thread cs)
  unfolding routes_from
  routes_differ cascade thread id [] h = tt
  routes_differ cascade thread id (c ∷ cs) h =
      elim (Option-cases (known schemas input c.agent_id)) [
        | inl e ↦
            rw (routes_from-unknown schemas input cascade thread c cs e)
              (routes_differ cascade thread id cs h.1)
        | inr (agent, e) ↦
            let verdict = judge schemas input cascade thread agent c in
            rw (routes_from-known schemas input cascade thread c cs e)
              (h.0, routes_differ (cascade + spent verdict) (thread + spent verdict) id cs h.1)
      ]

  routes_from-HasUniqueKeys :
      (cascade thread : ℕ) (cs : List Candidate)
      → HasUniqueKeys agent_of cs
      → HasUniqueKeys routed_to (routes_from schemas input cascade thread cs)
  unfolding routes_from
  routes_from-HasUniqueKeys cascade thread [] u = tt
  routes_from-HasUniqueKeys cascade thread (c ∷ cs) u =
      elim (Option-cases (known schemas input c.agent_id)) [
        | inl e ↦
            rw (routes_from-unknown schemas input cascade thread c cs e)
              (routes_from-HasUniqueKeys cascade thread cs u.1)
        | inr (agent, e) ↦
            let verdict = judge schemas input cascade thread agent c in
            rw (routes_from-known schemas input cascade thread c cs e) (
              routes_differ (cascade + spent verdict) (thread + spent verdict) c.agent_id cs u.0,
              routes_from-HasUniqueKeys (cascade + spent verdict) (thread + spent verdict) cs u.1,
            )
      ]

  -- Where the ids of the agents are unique, one event gives each agent at most one route.
  pub route_event-HasUniqueKeys :
      HasUniqueKeys agent_id_of input.agents → HasUniqueKeys routed_to (route_event schemas input)
  unfolding route_event
  route_event-HasUniqueKeys u = ground (
    arith,
    routes_from-HasUniqueKeys input.stats.cascade_wakes input.stats.thread_wakes
        (candidates schemas input) (candidates-HasUniqueKeys schemas input u),
  )

  known_of_has_key :
      (id : String) (agents : List RoutingAgent)
      → has_key agent_id_of id agents ≡ true
      → is_some (last_with agent_id_of id agents) ≡ true
  known_of_has_key id [] h = h
  known_of_has_key id (a ∷ agents) h = ground (arith, known_of_has_key id agents)

  wakes_targeted :
      (taken : List String) (id : String) (agents : List RoutingAgent)
      → includes taken id ≡ false
      → includes (event_targets schemas input.event) id ≡ true
      → has_key agent_id_of id agents ≡ true
      → has_key agent_of id (
          filter
            (λ c. is_targeted c.reason)
            (wake_candidates_from schemas input.event taken agents))
        ≡ true
  unfolding wake_candidates_from
  wakes_targeted taken id [] n t h = h
  wakes_targeted taken id (a ∷ agents) n t h =
      ground (arith, eq_iff a.id id, wakes_targeted taken id agents)

  candidates_targeted :
      (id : String)
      → has_key agent_id_of id input.agents ≡ true
      → includes (event_targets schemas input.event) id ≡ true
      → has_key agent_of id (candidates schemas input) ≡ true
  unfolding candidates wake_candidates
  candidates_targeted id h t =
      let ws = wait_routes schemas input in
      let wakes = wake_candidates_from schemas input.event (map candidate_id ws) input.agents in
      let aimed = filter (λ c. is_targeted c.reason) wakes in
      let others = filter (λ c. is_subscribed c.reason) wakes in
      rw (has_key-append agent_of id (sort by_id ws) (sort by_id aimed ++ sort by_id others)) (
        rw (has_key-append agent_of id (sort by_id aimed) (sort by_id others)) (
          rw (has_key-sort agent_of by_id id ws) (
            rw (has_key-sort agent_of by_id id aimed) (elim (Bool-cases (has_key agent_of id ws)) [
              | inl e ↦ rw e
              | inr e ↦
                  rw
                    (wakes_targeted (map candidate_id ws) id input.agents
                      (includes-has_key schemas input ws id ∙ e) t h)
                    (ground arith)
            ]))))

  routes_from-has_key :
      (cascade thread : ℕ) (id : String) (cs : List Candidate)
      → is_some (known schemas input id) ≡ true
      → has_key agent_of id cs ≡ true
      → has_key routed_to id (routes_from schemas input cascade thread cs) ≡ true
  unfolding routes_from
  routes_from-has_key cascade thread id [] k h = h
  routes_from-has_key cascade thread id (c ∷ cs) k h =
      elim (Option-cases (known schemas input c.agent_id)) [
        | inl e ↦
            rw (routes_from-unknown schemas input cascade thread c cs e)
              (routes_from-has_key cascade thread id cs k (ground (arith, eq_iff c.agent_id id)))
        | inr (agent, e) ↦
            let verdict = judge schemas input cascade thread agent c in
            let rest =
              routes_from-has_key (cascade + spent verdict) (thread + spent verdict) id cs k in
            rw (routes_from-known schemas input cascade thread c cs e)
              (elim (Bool-cases (str_eq c.agent_id id)) [
                | inl t ↦ rw t
                | inr f ↦ rw f (rest (rw f at h))
              ])
      ]

  -- An event that is routed at all (neither a control event nor a record-only one) gives each
  -- configured agent that it addresses a route, if only one that says why the agent is not woken.
  pub addressee_gets_route :
      (id : String)
      → (type_starts_with input.event.type "gateway.control."
          || is_record_only_event_type input.event.type)
        ≡ false
      → has_key agent_id_of id input.agents ≡ true
      → includes (event_targets schemas input.event) id ≡ true
      → has_key routed_to id (route_event schemas input) ≡ true
  unfolding route_event
  addressee_gets_route id routed h t = rw routed (
      routes_from-has_key input.stats.cascade_wakes input.stats.thread_wakes id
        (candidates schemas input) (known_of_has_key id input.agents h)
        (candidates_targeted id h t))
