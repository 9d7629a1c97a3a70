-- ===== src/Approvals/Reports.antt =====
-- A tool runner's report, and an operator's word on an action whose outcome is unknown:
-- handleToolReport and settleToolAction of approvals.ts. `redact` is what is stored of an error.
use Prim.Native.String.{◌++◌ as str_append}
use agent_gateway_control.Prelude.{
  ℕ, String, str_eq, ◌==◌, not, Bool, true, false, Option, none, some, if◌then◌else◌, Result, ok,
  err,
}
use agent_gateway_control.Approvals.Actions.{
  ToolActionStatus, ToolActionRow, ToolReport, is_unknown,
}
use agent_gateway_control.Approvals.Case.{Case, audit, post_notice_on_card}
use agent_gateway_control.Approvals.Execution.{Env}
use agent_gateway_control.Approvals.Settle.{
  ToolReportOutcome, applied, refused, ignored, is_refused, next_status, report_receipt,
  report_error, move_action, conflicting_report, executed_key,
}

pub data ManualOutcome : Type 0 where
  succeeded failed cancelled : ManualOutcome

abbrev pub manual_status : ManualOutcome → ToolActionStatus
manual_status succeeded = ToolActionStatus.succeeded
manual_status failed = ToolActionStatus.failed
manual_status cancelled = ToolActionStatus.cancelled

pub data SettleError : Type 0 where
  no_action : SettleError
  not_unknown : ToolActionStatus → SettleError

abbrev pub redacted : (String → String) → Option String → Option String
redacted redact none = none
redacted redact (some error) = some (redact error)

module _ {R : Type 0} where
  module _ (redact : String → String) where
    -- The action with its report's outcome.
    abbrev pub reported : ℕ → ToolActionStatus → ToolReport R → ToolActionRow R → ToolActionRow R
    reported now next report action = record action {
      status = next;
      completed_at = if is_unknown next then none else some now;
      receipt = report_receipt report;
      error_redacted = redacted redact (report_error report);
    }

    abbrev pub apply_report :
        Option ToolActionStatus
        → Env
        → ToolActionRow R
        → ToolReport R
        → Case R
        → Case R × ToolReportOutcome
    apply_report none env action report c = (conflicting_report action report c, ignored)
    apply_report (some next) env action report c = (
      (move_action env.now (is_unknown action.status) (reported env.now next report action) c).0,
      applied,
    )

    -- Whether the agent is retiring or retired, and whether the runner refused the job.
    abbrev pub accept_report :
        Bool → Bool → Env → ToolReport R → ToolActionRow R → Case R → Case R × ToolReportOutcome
    accept_report true refusal env report action c =
        (audit "system" "tool_action.report_dropped_retired" c, ignored)
    accept_report false true env report action c = (audit "system" "tool_action.refused" c, refused)
    accept_report false false env report action c =
        apply_report (next_status action.status report) env action report c

    abbrev pub take_report :
        Env → String → ℕ → ToolReport R → ToolActionRow R → Case R → Case R × ToolReportOutcome
    take_report env namespace attempt report action c =
        if not (str_eq action.namespace namespace)
        then (c, ignored)
        else if not (action.attempt == attempt)
        then (c, ignored)
        else accept_report env.agent_retired (is_refused report) env report action c

    abbrev pub report_on :
        Option (ToolActionRow R)
        → Env
        → String
        → ℕ
        → ToolReport R
        → Case R
        → Case R × ToolReportOutcome
    report_on none env namespace attempt report c = (c, ignored)
    report_on (some action) env namespace attempt report c =
        take_report env namespace attempt report action c

    -- `c` is the case of the action that the report names.
    unfoldable pub handle_tool_report :
        Env → String → ℕ → ToolReport R → Case R → Case R × ToolReportOutcome
    handle_tool_report env namespace attempt report c =
        report_on c.action env namespace attempt report c

    abbrev pub settle_unknown :
        ℕ → ManualOutcome → String → String → ToolActionRow R → Case R → Case R
    settle_unknown now outcome actor note action c =
        let updated : ToolActionRow R = record action {
          status = manual_status outcome;
          completed_at = some now;
          error_redacted =
              some (redact (str_append "settled by " (str_append actor (str_append ": " note))));
        } in
        let audited = audit actor "tool_action.settled" (record c { action = some updated }) in
        post_notice_on_card (executed_key c.approval.id updated.status) audited

    abbrev pub settle_by_hand :
        Option (ToolActionRow R)
        → ℕ
        → ManualOutcome
        → String
        → String
        → Case R
        → Result SettleError (Case R)
    settle_by_hand none now outcome actor note c = err no_action
    settle_by_hand (some action) now outcome actor note c =
        if not (is_unknown action.status)
        then err (not_unknown action.status)
        else ok (settle_unknown now outcome actor note action c)

    unfoldable pub settle_tool_action :
        ℕ → ManualOutcome → String → String → Case R → Result SettleError (Case R)
    settle_tool_action now outcome actor note c = settle_by_hand c.action now outcome actor note c
