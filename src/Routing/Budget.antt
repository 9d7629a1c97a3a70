-- ===== src/Routing/Budget.antt =====
-- The wake-ups that routeEvent (packages/core/src/routing.ts) grants, counted.
use agent_gateway_control.Prelude.{
  ℕ, ◌+◌, ◌≤◌, ◌<◌, max, ◌≡◌, Bool, true, false, ◌&&◌, ◌||◌, not, none, List, [], ◌∷◌, count_if,
  is_some, arith, inl, inr, Option-cases, Bool-cases,
}
use agent_gateway_control.Events.Types.{same_type, approval_resolved}
use agent_gateway_control.Events.Envelope.{Schemas, is_gateway_emitted}
use agent_gateway_control.Routing.Model.{
  RoutingAgent, RoutingInput, RouteDecision, Route, RouteReason, wait_timeout, Candidate,
  is_granted, max_thread_wakes_per_window,
}
use agent_gateway_control.Routing.Guards.{is_exempt, limit_reached, judge}
use agent_gateway_control.Routing.Route.{
  known, candidates, route, spent, routes_from, routes_from-unknown, routes_from-known, route_event,
}

abbrev pub is_timeout_reason : RouteReason → Bool
is_timeout_reason wait_timeout = true
is_timeout_reason _ = false

module _ {J : Type 0} (schemas : Schemas J) (input : RoutingInput J) where
  -- A granted wake-up that is neither a wait's timeout nor how an approval ended.
  abbrev pub is_ordinary : Route → Bool
  is_ordinary r =
      is_granted r.decision
      && not (
          is_timeout_reason r.reason
          || (is_some r.wait_id
              && (same_type input.event.type approval_resolved && is_gateway_emitted input.event)))

  judge_ordinary :
      (cascade thread : ℕ) (agent : RoutingAgent) (c : Candidate)
      → let verdict = judge schemas input cascade thread agent c in
        is_ordinary (route c verdict) ≡ true
        → limit_reached schemas input cascade thread agent ≡ none
  unfolding judge is_exempt
  judge_ordinary cascade thread agent c g = ground arith

  below_limits :
      (cascade thread : ℕ) (agent : RoutingAgent)
      → limit_reached schemas input cascade thread agent ≡ none
      → (cascade < input.limits.max_turns_per_cascade) × (thread < max_thread_wakes_per_window)
  unfolding limit_reached
  below_limits cascade thread agent h = ground arith

  spent_ordinary :
      (c : Candidate) (verdict : RouteDecision × RouteReason)
      → is_ordinary (route c verdict) ≡ true
      → spent verdict ≡ 1
  spent_ordinary c (decision, reason) h = ground arith

  routes_from_bounded :
      (cascade thread : ℕ) (cs : List Candidate)
      → let n = count_if is_ordinary (routes_from schemas input cascade thread cs) in
        (n + cascade ≤ max cascade input.limits.max_turns_per_cascade)
        × (n + thread ≤ max thread max_thread_wakes_per_window)
  unfolding routes_from
  routes_from_bounded cascade thread [] = omega arith
  routes_from_bounded cascade thread (c ∷ cs) =
      elim (Option-cases (known schemas input c.agent_id)) [
        | inl e ↦
            rw (routes_from-unknown schemas input cascade thread c cs e)
              (routes_from_bounded cascade thread cs)
        | inr (agent, e) ↦
            let verdict = judge schemas input cascade thread agent c in
            let rest = routes_from_bounded (cascade + spent verdict) (thread + spent verdict) cs in
            rw (routes_from-known schemas input cascade thread c cs e)
              (elim (Bool-cases (is_ordinary (route c verdict))) [
                | inl o ↦
                    let (some_left, some_room) =
                      below_limits cascade thread agent (judge_ordinary cascade thread agent c o) in
                    rw o (omega (arith, rest, spent_ordinary c verdict o, some_left, some_room))
                | inr o ↦ rw o (omega (arith, rest))
              ])
      ]

  -- The ordinary wake-ups that one event grants, with those that its cascade and its thread have
  -- already spent, stay within the limit on turns for a cascade and within the thread's window, or
  -- none is granted; only timeouts and approval resolutions go past them.
  pub route_event_bounded :
      let n = count_if is_ordinary (route_event schemas input) in
      let stats = input.stats in
      (n + stats.cascade_wakes ≤ max stats.cascade_wakes input.limits.max_turns_per_cascade)
      × (n + stats.thread_wakes ≤ max stats.thread_wakes max_thread_wakes_per_window)
  unfolding route_event
  route_event_bounded = ground (
    arith,
    routes_from_bounded input.stats.cascade_wakes input.stats.thread_wakes
        (candidates schemas input),
  )
