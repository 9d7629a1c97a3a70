-- ===== src/Approvals/Begin.antt =====
-- The door of a tool runner into the action that it executes: the function gateway_begin_tool_action
-- of packages/db/migrations/0011_approval_guards.sql.
use agent_gateway_control.Prelude.{
  ℕ, String, str_eq, ◌==◌, Bool, not, Option, none, some, [], ◌∷◌, ◌++◌, leb, is_some,
  if◌then◌else◌,
}
use agent_gateway_control.Approvals.Requests.{ApprovalStatus, is_granted}
use agent_gateway_control.Approvals.Actions.{ToolActionStatus, ToolActionRow, is_queued}
use agent_gateway_control.Approvals.Case.{Case}
use agent_gateway_control.Approvals.Execution.{Env}

pub data BeginVerdict : Type 0 where
  unknown_action wrong_namespace kill_switch not_queued stale_attempt hash_mismatch
        cancel_requested :
      BeginVerdict
  deadline_passed not_granted agent_disabled : BeginVerdict
  -- with the action's idempotency key
  begin : String → BeginVerdict

module _ {R : Type 0} where
  abbrev pub running_since : ℕ → ToolActionRow R → ToolActionRow R
  running_since now action = record action {
    status = ToolActionStatus.running;
    started_at = some now;
  }

  -- Why the action may not begin.
  abbrev pub begin_refusal :
      Env → Bool → ℕ → String → ApprovalStatus → ToolActionRow R → Option BeginVerdict
  begin_refusal env served attempt hash status action =
      if not served
      then some wrong_namespace
      else if env.kill_switch
      then some kill_switch
      else if not (is_queued action.status)
      then some not_queued
      else if not (action.attempt == attempt)
      then some stale_attempt
      else if not (str_eq action.immutable_action_hash hash)
      then some hash_mismatch
      else if is_some action.cancel_requested_at
      then some cancel_requested
      else if leb action.deadline_at env.now
      then some deadline_passed
      else if not (is_granted status)
      then some not_granted
      else if not env.agent_enabled
      then some agent_disabled
      else none

  abbrev pub begin_unless :
      Option BeginVerdict → ℕ → ToolActionRow R → Case R → Case R × BeginVerdict
  begin_unless (some verdict) now action c = (c, verdict)
  begin_unless none now action c = (
    record c {
      action = some (running_since now action);
      begun = c.begun ++ action.idempotency_key ∷ [];
    },
    begin action.idempotency_key,
  )

  abbrev pub begin_if :
      Option (ToolActionRow R) → Env → Bool → ℕ → String → Case R → Case R × BeginVerdict
  begin_if none env served attempt hash c = (c, unknown_action)
  begin_if (some action) env served attempt hash c =
      begin_unless (begin_refusal env served attempt hash c.approval.status action) env.now action c

  -- `served`: the runner's role may settle the execute jobs of the action's namespace.
  unfoldable pub begin_tool_action : Env → Bool → ℕ → String → Case R → Case R × BeginVerdict
  begin_tool_action env served attempt hash c = begin_if c.action env served attempt hash c
