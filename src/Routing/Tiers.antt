-- ===== src/Routing/Tiers.antt =====
-- The routes of an event in their tiers: waits, addressees, subscribers.
use agent_gateway_control.Prelude.{
  ℕ, ◌+◌, String, str_eq, ◌≡◌, refl, ap, ◌∙◌, Option, none, some, List, [], ◌∷◌, ◌++◌, All,
  All-both, All-filter, map, filter, arith, inl, inr, Option-cases, Bool-cases, ◌||◌,
}
use agent_gateway_control.Prelude.Sort.{sort, All-sort}
use agent_gateway_control.Events.Types.{
  same_type, wait_timeout, type_starts_with, is_record_only_event_type,
}
use agent_gateway_control.Events.Envelope.{Schemas, WaitTimeoutData, is_gateway_emitted}
use agent_gateway_control.Waits.Matching.{ActiveWait}
use agent_gateway_control.Routing.Model.{
  RoutingAgent, RoutingInput, Route, Candidate, CandidateReason, matched, timed_out, targeted,
  subscribed,
}
use agent_gateway_control.Routing.Grounds.{
  HasGround, IsGrounded, All-IsAmong, wait_candidates-IsGrounded, wake_candidates-IsGrounded,
}
use agent_gateway_control.Routing.Candidates.{
  find_wait, timeout_candidates, matched_candidate, wait_candidates, wake_candidates_from,
  wake_candidates,
}
use agent_gateway_control.Routing.Guards.{is_targeted, is_subscribed, priority_of, judge}
use agent_gateway_control.Routing.Route.{
  known, by_id, candidate_id, wait_routes, candidates, route, spent, routes_from,
  routes_from-unknown, routes_from-known, route_event,
}

-- The tier that a reason belongs to.
abbrev pub tier_of : CandidateReason → ℕ
tier_of matched = 10
tier_of timed_out = 10
tier_of targeted = 5
tier_of subscribed = 0

-- A candidate of the priority p, for a reason of that tier.
abbrev pub HasPriority : ℕ → Candidate → Type 0
HasPriority p c = (priority_of c ≡ p) × (tier_of c.reason ≡ p)

All-matched_candidate : (ws : List ActiveWait) → All (HasPriority 10) (map matched_candidate ws)
All-matched_candidate [] = tt
All-matched_candidate (w ∷ ws) = ((refl, refl), All-matched_candidate ws)

timeout-HasPriority :
    (waits : List ActiveWait) (timeout : Option WaitTimeoutData)
    → All (HasPriority 10) (timeout_candidates waits timeout)
unfolding timeout_candidates
timeout-HasPriority waits none = tt
timeout-HasPriority waits (some timeout) = elim (Option-cases (find_wait timeout.wait_id waits)) [
  | inl e ↦ rw (e, timeout_candidates) tt
  | inr (w, e) ↦
      rw (e, timeout_candidates)
        (elim (Bool-cases (str_eq w.agent_id timeout.agent_id)) [
          | inl t ↦ rw t ((refl, refl), tt)
          | inr f ↦ rw f tt
        ])
]

module _ {J : Type 0} (schemas : Schemas J) (input : RoutingInput J) where
  -- A route of the priority p, whose agent has its ground in a reason of that tier.
  abbrev pub IsInTier : ℕ → Route → Type 0
  IsInTier p r =
      (r.priority ≡ p)
      × ((reason : CandidateReason) × (tier_of reason ≡ p)
          × HasGround schemas input reason r.agent_id r.wait_id)

  abbrev StandsIn : ℕ → Candidate → Type 0
  StandsIn p c = HasPriority p c × IsGrounded schemas input c

  wait_candidates-HasPriority : All (HasPriority 10) (wait_candidates schemas input)
  unfolding wait_candidates
  wait_candidates-HasPriority = elim (Bool-cases (same_type input.event.type wait_timeout)) [
    | inl t ↦ rw t (elim (Bool-cases (is_gateway_emitted input.event)) [
      | inl g ↦
          rw g (timeout-HasPriority input.waits (schemas.parse_wait_timeout input.event.payload))
      | inr n ↦ rw n tt
    ])
    | inr f ↦ rw f (All-matched_candidate _)
  ]

  wakes-HasPriority :
      (taken : List String) (agents : List RoutingAgent)
      → let wakes = wake_candidates_from schemas input.event taken agents in
        All (HasPriority 5) (filter (λ c. is_targeted c.reason) wakes)
        × All (HasPriority 0) (filter (λ c. is_subscribed c.reason) wakes)
  unfolding wake_candidates_from
  wakes-HasPriority taken [] = (tt, tt)
  wakes-HasPriority taken (a ∷ agents) = ground (arith, wakes-HasPriority taken agents)

  routes_from-append :
      (cascade thread : ℕ) (xs ys : List Candidate)
      → (n : ℕ) × (m : ℕ) × (routes_from schemas input cascade thread (xs ++ ys)
          ≡ routes_from schemas input cascade thread xs ++ routes_from schemas input n m ys)
  unfolding routes_from
  routes_from-append cascade thread [] ys = (cascade, thread, refl)
  routes_from-append cascade thread (c ∷ xs) ys =
      elim (Option-cases (known schemas input c.agent_id)) [
        | inl e ↦
            let (n, m, same) = routes_from-append cascade thread xs ys in
            (
              n,
              m,
              rw
                  (
                    routes_from-unknown schemas input cascade thread c (xs ++ ys) e,
                    routes_from-unknown schemas input cascade thread c xs e,
                  )
                  same,
            )
        | inr (agent, e) ↦
            let verdict = judge schemas input cascade thread agent c in
            let (n, m, same) =
              routes_from-append (cascade + spent verdict) (thread + spent verdict) xs ys in
            (
              n,
              m,
              rw
                  (
                    routes_from-known schemas input cascade thread c (xs ++ ys) e,
                    routes_from-known schemas input cascade thread c xs e,
                  )
                  (ap (λ rs. route c verdict ∷ rs) same),
            )
      ]

  routes_from-IsInTier :
      (p cascade thread : ℕ) (cs : List Candidate)
      → All (StandsIn p) cs
      → All (IsInTier p) (routes_from schemas input cascade thread cs)
  unfolding routes_from
  routes_from-IsInTier p cascade thread [] h = tt
  routes_from-IsInTier p cascade thread (c ∷ cs) h =
      elim (Option-cases (known schemas input c.agent_id)) [
        | inl e ↦
            rw (routes_from-unknown schemas input cascade thread c cs e)
              (routes_from-IsInTier p cascade thread cs h.1)
        | inr (agent, e) ↦
            let verdict = judge schemas input cascade thread agent c in
            rw (routes_from-known schemas input cascade thread c cs e) (
              (h.0.0.0, (c.reason, h.0.0.1, h.0.1)),
              routes_from-IsInTier p (cascade + spent verdict) (thread + spent verdict) cs h.1,
            )
      ]

  -- The routes come in three tiers, in the order in which the guards judge them, granted or not: first,
  -- at priority 10, those for a wait of the agent that the event matches or ends; then, at 5, those for
  -- agents that the event addresses; then, at 0, those for agents with a subscription for its type.
  pub route_event_tiers :
      (waits : List Route) × (targets : List Route) × (subscriptions : List Route) × (route_event
          schemas input
        ≡ waits ++ (targets ++ subscriptions))
      × All (IsInTier 10) waits
      × All (IsInTier 5) targets
      × All (IsInTier 0) subscriptions
  unfolding route_event candidates wake_candidates wait_routes
  route_event_tiers =
      let ws = sort by_id (wait_routes schemas input) in
      let taken = map candidate_id (wait_routes schemas input) in
      let wakes = wake_candidates_from schemas input.event taken input.agents in
      let ts = sort by_id (filter (λ c. is_targeted c.reason) wakes) in
      let ss = sort by_id (filter (λ c. is_subscribed c.reason) wakes) in
      let both = wakes-HasPriority taken input.agents in
      let grounded =
        wake_candidates-IsGrounded schemas input taken input.agents (All-IsAmong input.agents) in
      let c = input.stats.cascade_wakes in
      let t = input.stats.thread_wakes in
      let (n, m, one) = routes_from-append c t ws (ts ++ ss) in
      let (k, l, two) = routes_from-append n m ts ss in
      elim (Bool-cases (
        type_starts_with input.event.type "gateway.control."
        || is_record_only_event_type input.event.type)) [
          | inl e ↦ ([], [], [], rw e, tt, tt, tt)
          | inr e ↦ (
            routes_from schemas input c t ws,
            routes_from schemas input n m ts,
            routes_from schemas input k l ss,
            rw e (one ∙ ap (λ rs. routes_from schemas input c t ws ++ rs) two),
            routes_from-IsInTier 10 c t ws (
                All-sort by_id (StandsIn 10) _ (
                  All-filter (StandsIn 10) _ _ (
                    All-both (HasPriority 10) (IsGrounded schemas input) _
                      wait_candidates-HasPriority (wait_candidates-IsGrounded schemas input)))),
            routes_from-IsInTier 5 n m ts (
                All-sort by_id (StandsIn 5) _ (
                  All-both (HasPriority 5) (IsGrounded schemas input) _ both.0
                    (All-filter (IsGrounded schemas input) _ wakes grounded))),
            routes_from-IsInTier 0 k l ss (
                All-sort by_id (StandsIn 0) _ (
                  All-both (HasPriority 0) (IsGrounded schemas input) _ both.1
                    (All-filter (IsGrounded schemas input) _ wakes grounded))),
          )
        ]
