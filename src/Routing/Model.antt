-- ===== src/Routing/Model.antt =====
-- The input and the output of routeEvent (packages/core/src/routing.ts).
use agent_gateway_control.Prelude.{ℕ, String, Bool, true, false, Option, List}
use agent_gateway_control.Events.Types.{GatewayEventType}
use agent_gateway_control.Events.Envelope.{GatewayEvent}
use agent_gateway_control.Agents.StateMachine.{AgentState}
use agent_gateway_control.Waits.Matching.{ActiveWait}

-- A wake rule of the configuration: an event type, and a target or none.
pub record WakeRule : Type 0 where
  pub event_type : GatewayEventType
  pub target_agent_id : Option String

-- `channel_floors` maps a channel to when the agent's bot was added.
pub record RoutingAgent : Type 0 where
  pub id : String
  pub state : AgentState
  pub wake_rules : List WakeRule
  pub channel_ids : List String
  pub channel_floors : List (String × ℕ)

pub record LoopStats : Type 0 where
  pub cascade_wakes : ℕ
  pub runs_last_hour : List (String × ℕ)
  pub duplicate_content : ℕ
  pub pairwise_messages : List (String × ℕ)
  pub thread_wakes : ℕ

-- OrganizationLimits, the fields that routing reads.
pub record Limits : Type 0 where
  pub max_agent_hops : ℕ
  pub max_turns_per_cascade : ℕ
  pub max_runs_per_agent_per_hour : ℕ

pub record RoutingInput (J : Type 0) : Type 0 where
  pub event : GatewayEvent J
  pub agents : List RoutingAgent
  pub waits : List ActiveWait
  pub limits : Limits
  pub stats : LoopStats
  pub now : ℕ

pub data RouteDecision : Type 0 where
  wake ignore wait_match blocked : RouteDecision

pub data RouteReason : Type 0 where
  wait_matched wait_timeout wait_lost target subscription self_post channel_not_allowed :
      RouteReason
  agent_disabled hop_limit cascade_limit rate_limit thread_rate_limit duplicate_payload :
      RouteReason
  pairwise_limit : RouteReason

pub record Route : Type 0 where
  pub agent_id : String
  pub decision : RouteDecision
  pub reason : RouteReason
  pub wait_id : Option String
  pub priority : ℕ

-- The reasons that a candidate comes with.
pub data CandidateReason : Type 0 where
  matched timed_out targeted subscribed : CandidateReason

pub record Candidate : Type 0 where
  pub agent_id : String
  pub reason : CandidateReason
  pub wait_id : Option String

abbrev pub max_pairwise_messages : ℕ
max_pairwise_messages = 12

abbrev pub max_thread_wakes_per_window : ℕ
max_thread_wakes_per_window = 30

abbrev pub is_granted : RouteDecision → Bool
is_granted wake = true
is_granted wait_match = true
is_granted _ = false
