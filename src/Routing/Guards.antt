-- ===== src/Routing/Guards.antt =====
-- The loop guards: the decision for one candidate, given the wake-ups granted before it.
use agent_gateway_control.Prelude.{
  ℕ, String, Bool, true, false, ◌&&◌, ◌||◌, not, Option, none, some, List, includes, is_some, leb,
  ltb, if◌then◌else◌,
}
use agent_gateway_control.Prelude.Maps.{lookup}
use agent_gateway_control.Agents.StateMachine.{AgentState, disabled}
use agent_gateway_control.Events.Types.{same_type, approval_resolved}
use agent_gateway_control.Events.Envelope.{
  MattermostPostData, Schemas, is_gateway_emitted, mattermost_post, event_sender_agent_id,
}
use agent_gateway_control.Waits.Matching.{is_id}
use agent_gateway_control.Routing.Model.{
  RoutingAgent, RoutingInput, RouteDecision, wake, ignore, wait_match, blocked, RouteReason,
  self_post, channel_not_allowed, agent_disabled, hop_limit, cascade_limit, rate_limit,
  thread_rate_limit, duplicate_payload, pairwise_limit, Candidate, CandidateReason, matched,
  timed_out, targeted, subscribed, max_pairwise_messages, max_thread_wakes_per_window,
}

-- `Object.hasOwn(record, id) ? (record[id] ?? 0) : 0`
abbrev pub count_of : Option ℕ → ℕ
count_of none = 0
count_of (some n) = n

unfoldable pub own_count : List (String × ℕ) → String → ℕ
own_count entries id = count_of (lookup id entries)

abbrev pub reason_of : CandidateReason → RouteReason
reason_of matched = RouteReason.wait_matched
reason_of timed_out = RouteReason.wait_timeout
reason_of targeted = RouteReason.target
reason_of subscribed = RouteReason.subscription

abbrev pub is_timed_out : CandidateReason → Bool
is_timed_out timed_out = true
is_timed_out _ = false

abbrev pub is_targeted : CandidateReason → Bool
is_targeted targeted = true
is_targeted _ = false

abbrev pub is_subscribed : CandidateReason → Bool
is_subscribed subscribed = true
is_subscribed _ = false

abbrev pub is_disabled : AgentState → Bool
is_disabled disabled = true
is_disabled _ = false

-- `floor !== undefined && time <= floor`
abbrev pub below_floor : Option ℕ → ℕ → Bool
below_floor none time = false
below_floor (some floor) time = leb time floor

-- The post is in a channel that the agent has, and after the agent was added to it.
unfoldable pub channel_allowed : RoutingAgent → Option MattermostPostData → ℕ → Bool
channel_allowed agent none time = true
channel_allowed agent (some post) time =
    includes agent.channel_ids post.channel_id
    && not (below_floor (lookup post.channel_id agent.channel_floors) time)

-- PRIORITY
abbrev pub priority_of : Candidate → ℕ
priority_of c = if is_some c.wait_id then 10 else if is_targeted c.reason then 5 else 0

module _ {J : Type 0} (schemas : Schemas J) (input : RoutingInput J) where
  -- A timeout, or how an approval ended: it resolves a wait that the agent already holds.
  unfoldable pub is_exempt : Candidate → Bool
  is_exempt c =
      is_timed_out c.reason
      || (is_some c.wait_id
          && (same_type input.event.type approval_resolved && is_gateway_emitted input.event))

  abbrev pub grant : Candidate → RouteDecision
  grant c = if is_some c.wait_id then wait_match else wake

  -- The guards that count, tried in this order.
  unfoldable pub limit_reached : ℕ → ℕ → RoutingAgent → Option RouteReason
  unfolding own_count
  limit_reached cascade_wakes thread_wakes agent =
      let sender = event_sender_agent_id schemas input.event in
      if ltb input.limits.max_agent_hops input.event.hop
      then some hop_limit
      else if leb input.limits.max_turns_per_cascade cascade_wakes
      then some cascade_limit
      else if leb input.limits.max_runs_per_agent_per_hour
          (own_count input.stats.runs_last_hour agent.id)
      then some rate_limit
      else if leb max_thread_wakes_per_window thread_wakes
      then some thread_rate_limit
      else if is_some sender && ltb 0 input.stats.duplicate_content
      then some duplicate_payload
      else if is_some sender
          && leb max_pairwise_messages (own_count input.stats.pairwise_messages agent.id)
      then some pairwise_limit
      else none

  abbrev pub blocked_or : Option RouteReason → Candidate → RouteDecision × RouteReason
  blocked_or none c = (grant c, reason_of c.reason)
  blocked_or (some reason) c = (blocked, reason)

  unfoldable pub judge : ℕ → ℕ → RoutingAgent → Candidate → RouteDecision × RouteReason
  judge cascade_wakes thread_wakes agent c =
      if not (channel_allowed agent (mattermost_post schemas input.event) input.event.time)
      then (ignore, channel_not_allowed)
      else if is_id (event_sender_agent_id schemas input.event) agent.id
      then (ignore, self_post)
      else if is_disabled agent.state
      then (ignore, agent_disabled)
      else if is_exempt c
      then (grant c, reason_of c.reason)
      else blocked_or (limit_reached cascade_wakes thread_wakes agent) c
