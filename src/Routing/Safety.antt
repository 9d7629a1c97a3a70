-- ===== src/Routing/Safety.antt =====
-- The granted routes of an event: routeEvent of packages/core/src/routing.ts.
use agent_gateway_control.Prelude.{
  ℕ, ◌+◌, String, eq_iff, ◌≡◌, ◌≢◌, true, some, List, [], ◌∷◌, All, arith, inl, inr, Option-cases,
  Bool-cases, ◌||◌,
}
use agent_gateway_control.Agents.StateMachine.{disabled}
use agent_gateway_control.Events.Types.{type_starts_with, is_record_only_event_type}
use agent_gateway_control.Events.Envelope.{Schemas, mattermost_post, event_sender_agent_id}
use agent_gateway_control.Routing.Model.{
  RoutingAgent, RoutingInput, Route, Candidate, CandidateReason, is_granted,
}
use agent_gateway_control.Routing.Guards.{reason_of, channel_allowed, judge}
use agent_gateway_control.Routing.Route.{
  known, candidates, spent, routes_from, routes_from-unknown, routes_from-known, route_event,
}
use agent_gateway_control.Routing.Grounds.{HasGround, IsGrounded, candidates-IsGrounded}

module _ {J : Type 0} (schemas : Schemas J) (input : RoutingInput J) where
  -- The agent may have the event: it is configured and not disabled, it is not the sender, and a post
  -- stands in one of its channels, after it was added there.
  abbrev pub MayReceive : String → Type 0
  MayReceive id =
      (agent : RoutingAgent) × (known schemas input id ≡ some agent)
      × (agent.state ≢ disabled)
      × (event_sender_agent_id schemas input.event ≢ some agent.id)
      × (channel_allowed agent (mattermost_post schemas input.event) input.event.time ≡ true)

  -- A granted route with the reason it comes with.
  abbrev pub IsJustified : Route → Type 0
  IsJustified r =
      is_granted r.decision ≡ true
      → MayReceive r.agent_id
        × ((reason : CandidateReason) × (r.reason ≡ reason_of reason)
            × HasGround schemas input reason r.agent_id r.wait_id)

  judge_granted :
      (cascade thread : ℕ) (agent : RoutingAgent) (c : Candidate)
      → let verdict = judge schemas input cascade thread agent c in
        is_granted verdict.0 ≡ true
        → (verdict.1 ≡ reason_of c.reason)
          × (agent.state ≢ disabled)
          × (event_sender_agent_id schemas input.event ≢ some agent.id)
          × (channel_allowed agent (mattermost_post schemas input.event) input.event.time ≡ true)
  unfolding judge
  judge_granted cascade thread agent c g =
      (ground arith, λ e. ground arith, λ e. ground (arith, eq_iff agent.id agent.id), ground arith)

  routes_from-IsJustified :
      (cascade thread : ℕ) (cs : List Candidate)
      → All (IsGrounded schemas input) cs
      → All IsJustified (routes_from schemas input cascade thread cs)
  unfolding routes_from
  routes_from-IsJustified cascade thread [] h = tt
  routes_from-IsJustified cascade thread (c ∷ cs) h =
      elim (Option-cases (known schemas input c.agent_id)) [
        | inl e ↦
            rw (routes_from-unknown schemas input cascade thread c cs e)
              (routes_from-IsJustified cascade thread cs h.1)
        | inr (agent, e) ↦
            let verdict = judge schemas input cascade thread agent c in
            rw (routes_from-known schemas input cascade thread c cs e) (
              λ g.
                  let (reason, live, other, allowed) = judge_granted cascade thread agent c g in
                  ((agent, e, live, other, allowed), (c.reason, reason, h.0)),
              routes_from-IsJustified (cascade + spent verdict) (thread + spent verdict) cs h.1,
            )
      ]

  -- Every wake-up that is granted goes to a configured agent that is neither disabled nor the sender,
  -- in a channel it has (and not for a post from before it was added); and it rests on what its
  -- reason says: a wait of that agent, which the route names and the event matches; the Gateway's
  -- timeout event for a wait of that agent, which names the wait and the agent and which the route names;
  -- an address to the agent; or an untargeted wake rule of a configured agent of that id for the
  -- event's type, which is no reserved type and no type of Mattermost.
  pub route_event-IsJustified : All IsJustified (route_event schemas input)
  unfolding route_event
  route_event-IsJustified =
      elim (Bool-cases (
        type_starts_with input.event.type "gateway.control."
        || is_record_only_event_type input.event.type)) [
          | inl e ↦ rw e tt
          | inr e ↦ rw e (
              routes_from-IsJustified input.stats.cascade_wakes input.stats.thread_wakes
                (candidates schemas input) (candidates-IsGrounded schemas input))
        ]
