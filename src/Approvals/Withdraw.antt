-- ===== src/Approvals/Withdraw.antt =====
-- What a kill-all, a disabled agent and a configuration change do to one open approval:
-- withdrawOpenApprovals and revokeQueuedActions of approvals.ts, on the rows of one case. The audit of
-- the whole call is left out.
use agent_gateway_control.Prelude.{
  ℕ, String, str_eq, Bool, true, false, ◌&&◌, Option, none, some, List, [], ◌∷◌, is_none,
  if◌then◌else◌,
}
use agent_gateway_control.Approvals.Requests.{ApprovalStatus, ApprovalRow, is_pending}
use agent_gateway_control.Approvals.Actions.{ToolActionStatus, ToolActionRow, is_queued, is_running}
use agent_gateway_control.Approvals.Case.{Case}
use agent_gateway_control.Approvals.Execution.{Env, execution_issues}

-- `null` is every agent.
abbrev pub concerns : Option String → String → Bool
concerns none agent = true
concerns (some id) agent = str_eq id agent

abbrev pub cancel_pending : Bool → ApprovalRow → ApprovalRow
cancel_pending when approval =
    if when && is_pending approval.status
    then record approval { status = ApprovalStatus.cancelled }
    else approval

abbrev pub has_issues : List String → Bool
has_issues [] = false
has_issues (i ∷ is) = true

module _ {R : Type 0} where
  abbrev pub cancel_queued : ℕ → Bool → String → Option (ToolActionRow R) → Option (ToolActionRow R)
  cancel_queued now when reason none = none
  cancel_queued now when reason (some action) =
      if when && is_queued action.status
      then some (record action {
        status = ToolActionStatus.cancelled;
        completed_at = some now;
        error_redacted = some reason;
      })
      else some action

  abbrev pub request_stop : ℕ → Bool → Option (ToolActionRow R) → Option (ToolActionRow R)
  request_stop now when none = none
  request_stop now when (some action) =
      if when && is_running action.status && is_none action.cancel_requested_at
      then some (record action { cancel_requested_at = some now })
      else some action

  abbrev pub agent_concerned : Option String → Option (ToolActionRow R) → Bool
  agent_concerned id none = false
  agent_concerned id (some action) = concerns id action.agent_id

  -- `reason` is cut to 500 characters.
  unfoldable pub withdraw_open_approvals : ℕ → Option String → String → Bool → Case R → Case R
  withdraw_open_approvals now agent_id reason pending_only c =
      let mine = concerns agent_id c.approval.requested_by_agent_id in
      if pending_only
      then record c { approval = cancel_pending mine c.approval }
      else let run = agent_concerned agent_id c.action in
        record c {
          approval = cancel_pending mine c.approval;
          action = request_stop now run (cancel_queued now run reason c.action);
        }

  module _ (digest : String → List (String × String) → String)
      (reason_of : List String → String) where
    unfoldable pub revoke_queued_actions : Env → Case R → Case R
    revoke_queued_actions env c =
        let issues = execution_issues digest env c.approval in
        record c {
          action = cancel_queued env.now (has_issues issues) (reason_of issues) c.action;
          approval = cancel_pending (has_issues issues) c.approval;
        }
