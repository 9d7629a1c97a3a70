-- ===== src/Routing/Candidates.antt =====
-- Who an event may reach: matched waits, addressees, subscribers.
use agent_gateway_control.Prelude.{
  ℕ, String, str_eq, Bool, ◌&&◌, not, Option, none, some, List, [], ◌∷◌, ◌++◌, any, map, includes,
  is_none, ltb, if◌then◌else◌,
}
use agent_gateway_control.Prelude.Sort.{sort}
use agent_gateway_control.Events.Types.{
  same_type, type_starts_with, is_reserved_event_type, wait_timeout,
}
use agent_gateway_control.Events.Envelope.{
  Schemas, GatewayEvent, WaitTimeoutData, is_gateway_emitted, event_targets,
}
use agent_gateway_control.Waits.Matching.{ActiveWait, wait_matches}
use agent_gateway_control.Routing.Model.{
  RoutingAgent, RoutingInput, Candidate, matched, timed_out, targeted, subscribed,
}

-- `waits.find((w) => w.id === id)`
abbrev pub find_wait : String → List ActiveWait → Option ActiveWait
find_wait id [] = none
find_wait id (w ∷ ws) = if str_eq w.id id then some w else find_wait id ws

-- The timeout of a wait that is still there and belongs to the agent that the event names.
unfoldable pub timeout_candidates : List ActiveWait → Option WaitTimeoutData → List Candidate
timeout_candidates waits none = []
timeout_candidates waits (some timeout) = elim (find_wait timeout.wait_id waits) [
  | none ↦ []
  | some wait ↦
      if str_eq wait.agent_id timeout.agent_id
      then (record { agent_id = wait.agent_id; reason = timed_out; wait_id = some wait.id }) ∷ []
      else []
]

-- The loop that fills `byAgent`: the first match of each agent, in the order of the waits.
unfoldable pub by_agent : (ActiveWait → Bool) → List ActiveWait → List ActiveWait → List ActiveWait
by_agent test taken [] = taken
by_agent test taken (w ∷ ws) =
    by_agent test
      (if not (any (λ t. str_eq t.agent_id w.agent_id) taken) && test w
        then taken ++ w ∷ []
        else taken)
      ws

abbrev pub matched_candidate : ActiveWait → Candidate
matched_candidate wait = record {
  agent_id = wait.agent_id;
  reason = matched;
  wait_id = some wait.id;
}

abbrev pub earlier : ActiveWait → ActiveWait → Bool
earlier a b = ltb a.timeout_at b.timeout_at

-- An untargeted wake rule for the event's type.
unfoldable pub subscribes : {J : Type 0} → RoutingAgent → GatewayEvent J → Bool
subscribes agent event =
    not (is_reserved_event_type event.type)
    && (not (type_starts_with event.type "mattermost.")
        && any (λ r. is_none r.target_agent_id && same_type r.event_type event.type)
            agent.wake_rules)

module _ {J : Type 0} (schemas : Schemas J) where
  unfoldable pub wait_candidates : RoutingInput J → List Candidate
  wait_candidates input =
      if same_type input.event.type wait_timeout
      then if is_gateway_emitted input.event
        then timeout_candidates input.waits (schemas.parse_wait_timeout input.event.payload)
        else []
      else map matched_candidate (
          by_agent (λ w. wait_matches schemas w input.event input.now) []
            (sort earlier input.waits))

  -- The loop over the agents; `taken` holds those that a wait has already matched.
  unfoldable pub wake_candidates_from :
      GatewayEvent J → List String → List RoutingAgent → List Candidate
  wake_candidates_from event taken [] = []
  wake_candidates_from event taken (agent ∷ agents) =
      let rest = wake_candidates_from event taken agents in
      if includes taken agent.id
      then rest
      else if includes (event_targets schemas event) agent.id
      then (record { agent_id = agent.id; reason = targeted; wait_id = none }) ∷ rest
      else if subscribes agent event
      then (record { agent_id = agent.id; reason = subscribed; wait_id = none }) ∷ rest
      else rest

  unfoldable pub wake_candidates : RoutingInput J → List String → List Candidate
  wake_candidates input taken = wake_candidates_from input.event taken input.agents

  -- The priority that the event would have as an ordinary wake-up.
  unfoldable pub wake_priority : RoutingAgent → GatewayEvent J → Option ℕ
  wake_priority agent event =
      if includes (event_targets schemas event) agent.id
      then some 5
      else if subscribes agent event
      then some 0
      else none
