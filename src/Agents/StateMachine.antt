-- ===== src/Agents/StateMachine.antt =====
-- packages/core/src/state-machine.ts: the transition table of a logical agent.
pub mod Traces
mod Tests
use agent_gateway_control.Prelude.{String, Option, none, some, Result, ok, err}

-- AGENT_STATES of packages/db/src/schema.ts
pub data AgentState : Type 0 where
  disabled idle queued running waiting failed paused : AgentState

pub data AgentTransition : Type 0 where
  enable enable_failed disable schedule start retry complete_idle complete_waiting fail pause :
      AgentTransition
  resume_idle resume_waiting wait_resolved redrive : AgentTransition

-- TRANSITIONS and its lookup: a pair that the table does not hold is `undefined ?? null`.
unfoldable pub next_agent_state : AgentState → AgentTransition → Option AgentState
next_agent_state disabled enable = some idle
next_agent_state disabled enable_failed = some failed
next_agent_state idle schedule = some queued
next_agent_state idle pause = some paused
next_agent_state idle disable = some disabled
next_agent_state queued start = some running
next_agent_state queued retry = some queued
next_agent_state queued complete_idle = some idle
next_agent_state queued complete_waiting = some waiting
next_agent_state queued fail = some failed
next_agent_state queued pause = some paused
next_agent_state running retry = some queued
next_agent_state running complete_idle = some idle
next_agent_state running complete_waiting = some waiting
next_agent_state running fail = some failed
next_agent_state running pause = some paused
next_agent_state waiting wait_resolved = some queued
next_agent_state waiting pause = some paused
next_agent_state waiting disable = some disabled
next_agent_state failed redrive = some queued
next_agent_state failed disable = some disabled
next_agent_state paused resume_idle = some idle
next_agent_state paused resume_waiting = some waiting
next_agent_state paused disable = some disabled
next_agent_state _ _ = none

pub record InvalidTransitionError : Type 0 where
  pub agent_id : String
  pub state : AgentState
  pub transition : AgentTransition

or_invalid : InvalidTransitionError → Option AgentState → Result InvalidTransitionError AgentState
or_invalid e none = err e
or_invalid e (some next) = ok next

unfoldable pub require_transition :
    String → AgentState → AgentTransition → Result InvalidTransitionError AgentState
unfolding next_agent_state or_invalid
require_transition agent_id state transition =
    or_invalid (record { agent_id = agent_id; state = state; transition = transition })
      (next_agent_state state transition)
