-- ===== src/Approvals/Settle.antt =====
-- How an action settles and an approval is swept: handleToolReport, settled, sweepOne,
-- settleApprovalOnTimeout and settleToolAction of approvals.ts. `redact` is what is stored of an error.
use Prim.Native.String.{◌++◌ as str_append}
use agent_gateway_control.Prelude.{
  ℕ, ◌+◌, String, str_eq, Bool, true, false, ◌&&◌, not, Option, none, some, leb, is_none,
  if◌then◌else◌,
}
use agent_gateway_control.Approvals.Requests.{
  ApprovalStatus, ApprovalRow, is_pending, is_granted, is_expired, is_cancelled,
}
use agent_gateway_control.Approvals.Actions.{
  ToolActionStatus, ToolActionRow, ToolReport, report_succeeded, report_failed, report_unknown,
  report_refused, is_queued, is_running, is_unknown,
}
use agent_gateway_control.Approvals.Case.{Case, audit, raise_alert, post_notice_on_card}
use agent_gateway_control.Approvals.Resolve.{resolve_approval}
use agent_gateway_control.Approvals.Decide.{tool_run_grace_ms}

pub data ToolReportOutcome : Type 0 where
  applied refused ignored : ToolReportOutcome

abbrev pub action_name : ToolActionStatus → String
action_name ToolActionStatus.queued = "queued"
action_name ToolActionStatus.running = "running"
action_name ToolActionStatus.succeeded = "succeeded"
action_name ToolActionStatus.failed = "failed"
action_name ToolActionStatus.unknown = "unknown"
action_name ToolActionStatus.cancelled = "cancelled"

abbrev pub executed_key : String → ToolActionStatus → String
executed_key id status =
    str_append "approval-executed:" (str_append id (str_append ":" (action_name status)))

unfoldable pub expire : ApprovalRow → ApprovalRow
expire approval =
    if is_pending approval.status
    then record approval { status = ApprovalStatus.expired }
    else approval

abbrev pub final_key : ApprovalRow → String
final_key approval = str_append "approval-final:" approval.id

abbrev pub expire_overdue : ℕ → ApprovalRow → ApprovalRow
expire_overdue now approval = if leb approval.expires_at now then expire approval else approval

module _ {R : Type 0} where
  abbrev pub report_kind : ToolReport R → String
  report_kind (report_succeeded receipt) = "succeeded"
  report_kind (report_failed error) = "failed"
  report_kind (report_unknown error) = "unknown"
  report_kind (report_refused reason) = "refused"

  abbrev pub is_refused : ToolReport R → Bool
  is_refused (report_refused reason) = true
  is_refused _ = false

  -- Where a report moves an action; none when it cannot.
  abbrev pub next_status : ToolActionStatus → ToolReport R → Option ToolActionStatus
  next_status ToolActionStatus.running (report_succeeded receipt) = some ToolActionStatus.succeeded
  next_status ToolActionStatus.unknown (report_succeeded receipt) = some ToolActionStatus.succeeded
  next_status ToolActionStatus.queued (report_failed error) = some ToolActionStatus.failed
  next_status ToolActionStatus.running (report_failed error) = some ToolActionStatus.failed
  next_status ToolActionStatus.unknown (report_failed error) = some ToolActionStatus.failed
  next_status ToolActionStatus.running (report_unknown error) = some ToolActionStatus.unknown
  next_status _ _ = none

  abbrev pub report_receipt : ToolReport R → Option R
  report_receipt (report_succeeded receipt) = some receipt
  report_receipt _ = none

  abbrev pub report_error : ToolReport R → Option String
  report_error (report_failed error) = some error
  report_error (report_unknown error) = some error
  report_error _ = none

  abbrev pub late_alert : Bool → ToolActionRow R → Case R → Case R
  late_alert late action c = if late then raise_alert (str_append "tool-late:" action.id) c else c

  abbrev pub unknown_alert : ToolActionRow R → Case R → Case R
  unknown_alert action c =
      if is_unknown action.status then raise_alert (str_append "tool-unknown:" action.id) c else c

  -- After an action moved; whether it resolved the approval.
  unfoldable pub settled : ℕ → Bool → ToolActionRow R → Case R → Case R × Bool
  settled now late action c =
      let audited = audit "system" (str_append "tool_action." (action_name action.status)) c in
      let alerted = late_alert late action (unknown_alert action audited) in
      resolve_approval now (post_notice_on_card (executed_key c.approval.id action.status) alerted)

  -- The update of the action's row, and what follows it.
  abbrev pub move_action : ℕ → Bool → ToolActionRow R → Case R → Case R × Bool
  move_action now late moved c = settled now late moved (record c { action = some moved })

  -- A report that the action cannot take any more; an alert when it says something else happened.
  unfoldable pub conflicting_report : ToolActionRow R → ToolReport R → Case R → Case R
  conflicting_report action report c =
      let audited = audit "system" "tool_action.report_ignored" c in
      let harmless =
        str_eq (report_kind report) "failed" && str_eq (action_name action.status) "cancelled" in
      if not (str_eq (report_kind report) (action_name action.status)) && not harmless
      then raise_alert
          (str_append "tool-conflict:" (str_append action.id (str_append ":" (report_kind report))))
          audited
      else audited

  abbrev pub action_cancelled : Option (ToolActionRow R) → Bool
  action_cancelled none = false
  action_cancelled (some action) = str_eq (action_name action.status) "cancelled"

  -- The card's last word for an approval that ended without a decision in its thread.
  unfoldable pub final_notice : Case R → Case R
  final_notice c =
      if is_expired c.approval.status
      then post_notice_on_card (final_key c.approval) c
      else if is_cancelled c.approval.status && is_none c.approval.decision_post_id
      then post_notice_on_card (final_key c.approval) c
      else if is_granted c.approval.status && action_cancelled c.action
      then post_notice_on_card (executed_key c.approval.id ToolActionStatus.cancelled) c
      else c

  abbrev pub not_begun : ℕ → ToolActionRow R → ToolActionRow R
  not_begun now action = record action {
    status = ToolActionStatus.cancelled;
    completed_at = some now;
    error_redacted = some "did not begin in time";
  }

  abbrev pub not_reported : ToolActionRow R → ToolActionRow R
  not_reported action = record action {
    status = ToolActionStatus.unknown;
    error_redacted = some "began but did not report in time";
  }

  abbrev pub overdue_queued : ℕ → ToolActionRow R → Bool
  overdue_queued now action = is_queued action.status && leb action.deadline_at now

  abbrev pub overdue_running : ℕ → ToolActionRow R → Bool
  overdue_running now action =
      is_running action.status && leb (action.deadline_at + tool_run_grace_ms) now

  abbrev pub overdue_action : ℕ → ToolActionRow R → Option (ToolActionRow R)
  overdue_action now action =
      if overdue_queued now action
      then some (not_begun now action)
      else if overdue_running now action
      then some (not_reported action)
      else none

  -- The action moved on, where it is overdue.
  unfoldable pub settle_overdue :
      ℕ → ApprovalRow → Option (ToolActionRow R) → Option (ToolActionRow R)
  settle_overdue now approval none = none
  settle_overdue now approval (some action) =
      if is_granted approval.status then overdue_action now action else none

  abbrev pub swept_as : Option (ToolActionRow R) → ℕ → Case R → Case R × Bool
  swept_as none now c = resolve_approval now (final_notice c)
  swept_as (some moved) now c = ((move_action now false moved c).0, true)

  abbrev pub settle_swept : ℕ → Case R → Case R × Bool
  settle_swept now c = swept_as (settle_overdue now c.approval c.action) now c

  unfoldable pub sweep_one : ℕ → Case R → Case R × Bool
  sweep_one now c = settle_swept now (record c { approval = expire_overdue now c.approval })

  -- The timeout of an open action: it moves on as if it were overdue.
  abbrev pub timed_out_action : ℕ → ToolActionRow R → Option (ToolActionRow R)
  timed_out_action now action =
      if is_queued action.status
      then some (not_begun now action)
      else if is_running action.status
      then some (not_reported action)
      else none

  abbrev pub timed_out : ℕ → Option (ToolActionRow R) → Option (ToolActionRow R)
  timed_out now none = none
  timed_out now (some action) = timed_out_action now action

  abbrev pub timed_out_as : Option (ToolActionRow R) → ℕ → Case R → Case R × Bool
  timed_out_as none now c = resolve_approval now c
  timed_out_as (some moved) now c = ((move_action now false moved c).0, true)

  abbrev pub settle_granted : ℕ → Case R → Case R × Bool
  settle_granted now c = timed_out_as (timed_out now c.action) now c

  unfoldable pub settle_approval_on_timeout : ℕ → Case R → Case R × Bool
  settle_approval_on_timeout now c =
      if is_pending c.approval.status
      then resolve_approval now (final_notice (record c { approval = expire c.approval }))
      else if is_granted c.approval.status
      then settle_granted now c
      else resolve_approval now c
