-- ===== src/Routing/CandidateKeys.antt =====
-- The agents that the candidates of an event name (packages/core/src/routing.ts).
use agent_gateway_control.Prelude.{
  String, str_eq, ◌≡◌, refl, ap, Bool, false, Option, none, some, List, [], ◌∷◌, ◌++◌, All, All-imp,
  All-filter, All-map, any, includes, map, filter, is_some, arith, inl, inr, Option-cases,
  Bool-cases, ◌||◌, ◌&&◌, not,
}
use agent_gateway_control.Prelude.Sort.{sort}
use agent_gateway_control.Prelude.Table.{HasUniqueKeys}
use agent_gateway_control.Prelude.Keys.{
  Differs, AreApart, Differs-sym, has_key, HasUniqueKeys-append, HasUniqueKeys-filter,
  HasUniqueKeys-sort, AreApart-append, AreApart-filter, AreApart-sort_left, AreApart-sort_right,
}
use agent_gateway_control.Events.Types.{same_type, wait_timeout}
use agent_gateway_control.Events.Envelope.{Schemas, WaitTimeoutData, is_gateway_emitted}
use agent_gateway_control.Waits.Matching.{ActiveWait, wait_matches}
use agent_gateway_control.Routing.Model.{RoutingAgent, RoutingInput, Route, Candidate}
use agent_gateway_control.Routing.Candidates.{
  find_wait, timeout_candidates, by_agent, matched_candidate, earlier, wait_candidates,
  wake_candidates_from, wake_candidates,
}
use agent_gateway_control.Routing.Guards.{is_targeted, is_subscribed}
use agent_gateway_control.Routing.Route.{known, by_id, candidate_id, wait_routes, candidates}

abbrev pub agent_of : Candidate → String
agent_of c = c.agent_id

abbrev pub routed_to : Route → String
routed_to r = r.agent_id

abbrev pub waiting_agent : ActiveWait → String
waiting_agent w = w.agent_id

abbrev pub agent_id_of : RoutingAgent → String
agent_id_of a = a.id

by_agent-HasUniqueKeys :
    (test : ActiveWait → Bool) (taken ws : List ActiveWait)
    → HasUniqueKeys waiting_agent taken
    → HasUniqueKeys waiting_agent (by_agent test taken ws)
unfolding by_agent
by_agent-HasUniqueKeys test taken [] u = u
by_agent-HasUniqueKeys test taken (w ∷ ws) u =
    elim (Bool-cases (not (any (λ x. str_eq x.agent_id w.agent_id) taken) && test w)) [
      | inl e ↦ rw e (
          by_agent-HasUniqueKeys test (taken ++ w ∷ []) ws (
            HasUniqueKeys-append waiting_agent taken (w ∷ []) u (tt, tt)
              (apart taken (ground arith))))
      | inr e ↦ rw e (by_agent-HasUniqueKeys test taken ws u)
    ]
  where
    apart :
        (taken : List ActiveWait)
        → has_key waiting_agent w.agent_id taken ≡ false
        → AreApart waiting_agent taken (w ∷ [])
    apart [] h = tt
    apart (t ∷ taken) h =
        ((Differs-sym waiting_agent w t (ground arith), tt), apart taken (ground arith))

HasUniqueKeys-map :
    (ws : List ActiveWait)
    → HasUniqueKeys waiting_agent ws
    → HasUniqueKeys agent_of (map matched_candidate ws)
HasUniqueKeys-map [] u = tt
HasUniqueKeys-map (w ∷ ws) u = (
  All-map (Differs agent_of (matched_candidate w)) matched_candidate ws u.0,
  HasUniqueKeys-map ws u.1,
)

timeout-HasUniqueKeys :
    (waits : List ActiveWait) (timeout : Option WaitTimeoutData)
    → HasUniqueKeys agent_of (timeout_candidates waits timeout)
unfolding timeout_candidates
timeout-HasUniqueKeys waits none = tt
timeout-HasUniqueKeys waits (some timeout) = elim (Option-cases (find_wait timeout.wait_id waits)) [
  | inl e ↦ rw (e, timeout_candidates) tt
  | inr (w, e) ↦
      rw (e, timeout_candidates)
        (elim (Bool-cases (str_eq w.agent_id timeout.agent_id)) [
          | inl t ↦ rw t (tt, tt)
          | inr f ↦ rw f tt
        ])
]

module _ {J : Type 0} (schemas : Schemas J) (input : RoutingInput J) where
  wait_candidates-HasUniqueKeys : HasUniqueKeys agent_of (wait_candidates schemas input)
  unfolding wait_candidates
  wait_candidates-HasUniqueKeys = elim (Bool-cases (same_type input.event.type wait_timeout)) [
    | inl t ↦ rw t (elim (Bool-cases (is_gateway_emitted input.event)) [
      | inl g ↦
          rw g (timeout-HasUniqueKeys input.waits (schemas.parse_wait_timeout input.event.payload))
      | inr n ↦ rw n tt
    ])
    | inr f ↦ rw f (
        HasUniqueKeys-map _ (
          by_agent-HasUniqueKeys (λ w. wait_matches schemas w input.event input.now) []
            (sort earlier input.waits) tt))
  ]

  -- The wakes: ids of the configuration, none of them taken.
  wakes_differ :
      (taken : List String) (a : RoutingAgent) (agents : List RoutingAgent)
      → All (Differs agent_id_of a) agents
      → All
          (λ c. str_eq c.agent_id a.id ≡ false)
          (wake_candidates_from schemas input.event taken agents)
  unfolding wake_candidates_from
  wakes_differ taken a [] h = tt
  wakes_differ taken a (b ∷ agents) h = ground (arith, wakes_differ taken a agents h.1)

  wakes-HasUniqueKeys :
      (taken : List String) (agents : List RoutingAgent)
      → HasUniqueKeys agent_id_of agents
      → HasUniqueKeys agent_of (wake_candidates_from schemas input.event taken agents)
  unfolding wake_candidates_from
  wakes-HasUniqueKeys taken [] u = tt
  wakes-HasUniqueKeys taken (a ∷ agents) u =
      ground (arith, wakes-HasUniqueKeys taken agents u.1, wakes_differ taken a agents u.0)

  wakes_untaken :
      (taken : List String) (agents : List RoutingAgent)
      → All
          (λ c. includes taken c.agent_id ≡ false)
          (wake_candidates_from schemas input.event taken agents)
  unfolding wake_candidates_from
  wakes_untaken taken [] = tt
  wakes_untaken taken (a ∷ agents) = ground (arith, wakes_untaken taken agents)

  pub includes-has_key :
      (ws : List Candidate) (id : String)
      → includes (map candidate_id ws) id ≡ has_key agent_of id ws
  includes-has_key [] id = refl
  includes-has_key (w ∷ ws) id = ap (λ b. str_eq w.agent_id id || b) (includes-has_key ws id)

  untaken-AreApart :
      (ws cs : List Candidate)
      → All (λ c. includes (map candidate_id ws) c.agent_id ≡ false) cs
      → AreApart agent_of ws cs
  untaken-AreApart [] cs h = tt
  untaken-AreApart (w ∷ ws) cs h = (
    All-imp (λ c. includes (map candidate_id (w ∷ ws)) c.agent_id ≡ false) (Differs agent_of w) cs
        (λ c e. Differs-sym agent_of c w (ground arith)) h,
    untaken-AreApart ws cs (
        All-imp (λ c. includes (map candidate_id (w ∷ ws)) c.agent_id ≡ false)
          (λ c. includes (map candidate_id ws) c.agent_id ≡ false) cs (λ c e. ground arith) h),
  )

  AreApart-filter_right :
      (p : Candidate → Bool) (xs ys : List Candidate)
      → AreApart agent_of xs ys
      → AreApart agent_of xs (filter p ys)
  AreApart-filter_right p xs ys h =
      All-imp (λ x. All (Differs agent_of x) ys) (λ x. All (Differs agent_of x) (filter p ys)) xs
        (λ x k. All-filter (Differs agent_of x) p ys k) h

  wakes : List Candidate
  wakes = wake_candidates schemas input (map candidate_id (wait_routes schemas input))

  pub candidates-HasUniqueKeys :
      HasUniqueKeys agent_id_of input.agents → HasUniqueKeys agent_of (candidates schemas input)
  unfolding candidates wakes wait_routes wake_candidates
  candidates-HasUniqueKeys u =
      let ws = wait_routes schemas input in
      let t = filter (λ c. is_targeted c.reason) wakes in
      let s = filter (λ c. is_subscribed c.reason) wakes in
      let uw =
        HasUniqueKeys-filter agent_of (λ c. is_some (known schemas input c.agent_id))
          (wait_candidates schemas input) wait_candidates-HasUniqueKeys in
      let uk = wakes-HasUniqueKeys (map candidate_id ws) input.agents u in
      let off = untaken-AreApart ws wakes (wakes_untaken (map candidate_id ws) input.agents) in
      HasUniqueKeys-append agent_of (sort by_id ws) (sort by_id t ++ sort by_id s)
        (HasUniqueKeys-sort agent_of by_id ws uw)
        (HasUniqueKeys-append agent_of (sort by_id t) (sort by_id s)
          (HasUniqueKeys-sort agent_of by_id t
            (HasUniqueKeys-filter agent_of (λ c. is_targeted c.reason) wakes uk))
          (HasUniqueKeys-sort agent_of by_id s
            (HasUniqueKeys-filter agent_of (λ c. is_subscribed c.reason) wakes uk))
          (AreApart-sort_left agent_of by_id t (sort by_id s) (
            AreApart-sort_right agent_of by_id t s (
              AreApart-filter agent_of (λ c. is_targeted c.reason) (λ c. is_subscribed c.reason)
                wakes (λ c h. ground arith) uk))))
        (AreApart-sort_left agent_of by_id ws (sort by_id t ++ sort by_id s) (
          AreApart-append agent_of ws (sort by_id t) (sort by_id s)
            (AreApart-sort_right agent_of by_id ws t
              (AreApart-filter_right (λ c. is_targeted c.reason) ws wakes off))
            (AreApart-sort_right agent_of by_id ws s
              (AreApart-filter_right (λ c. is_subscribed c.reason) ws wakes off))))
