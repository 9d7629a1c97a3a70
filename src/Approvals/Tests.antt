-- ===== src/Approvals/Tests.antt =====
-- An approval from its request to its receipt, and the theorems at it.
use agent_gateway_control.Prelude.{
  Bool, str_eq, ℕ, ◌≤◌, String, true, false, none, some, List, [], ◌∷◌, ◌≡◌, refl, sym, ◌∙◌, length,
  includes, arith, count_if,
}
use agent_gateway_control.Agents.StateMachine.{idle}
use agent_gateway_control.Policy.Tools.{evaluate_tool, is_finance_read}
use agent_gateway_control.Policy.Patterns.{tool_pattern_covers}
use agent_gateway_control.Approvals.Requests.{ApprovalStatus}
use agent_gateway_control.Approvals.Actions.{
  report_succeeded, report_failed, tool_namespace, tool_action_idempotency_key,
}
use agent_gateway_control.Approvals.Case.{
  CardPost, Case, audit, raise_alert, post_notice, post_notice_on_card,
}
use agent_gateway_control.Approvals.Resolve.{
  approval_outcome, resolve_approval, record_decision, extend_approval_wait,
}
use agent_gateway_control.Approvals.Execution.{
  Env, approved_action_issues, approval_action_hash, execution_issues,
}
use agent_gateway_control.Approvals.Codes.{approve}
use agent_gateway_control.Approvals.Decide.{
  ApprovalReply, not_approver, accept_grant, queued_action, grant_request, decide,
  handle_approval_reply,
}
use agent_gateway_control.Approvals.Begin.{begin_tool_action}
use agent_gateway_control.Approvals.Settle.{settled, conflicting_report}
use agent_gateway_control.Approvals.Reports.{handle_tool_report}
use agent_gateway_control.Approvals.New.{ApprovalDraft, FreshIds, new_approval, create_approval}
use agent_gateway_control.Approvals.Writes.{ApprovalGuard, core}
use agent_gateway_control.Approvals.Life.{Functions, Step, Reach, start, after}
use agent_gateway_control.Approvals.Once.{
  draft_hash, events_of, begun-at_most_once, begun-IsApproved, resolved-once, History-WellFormed,
}
use agent_gateway_control.Approvals.Preserved.{Reach-ApprovalGuard}
use agent_gateway_control.Approvals.Invariant.{WellFormed}
use agent_gateway_control.Approvals.Authority.{IsAuthorized, decision-IsAuthorized}
use agent_gateway_control.Approvals.Granted.{IsAllowed, granted-IsAllowed}
use agent_gateway_control.Approvals.Refused.{is_begun, may_begin, begin-iff_may_begin}
use agent_gateway_control.Approvals.Reported.{is_applied, counts, handle_tool_report-IsTaken}
use agent_gateway_control.Approvals.Sweep.{is_due, sweep_candidates}
use agent_gateway_control.Approvals.Emptied.{AreSettled, is_swept, sweep_candidates-all_resolved}

abbrev fs : Functions
fs = record {
  digest = λ action_type params. action_type;
  code_of = λ approval. approval.nonce;
  redact = λ error. error;
  reason_of = λ issues. "revoked";
}

abbrev ids : FreshIds
ids = record { approval_id = "a1"; nonce = "AB12-CD34-EF56" }

abbrev owners : List String
owners = "ann" ∷ []

abbrev draft : ApprovalDraft
draft = record {
  run_id = "r1";
  agent_id = "writer";
  action_type = "deploy.site";
  action_params = [];
}

abbrev env : Env
env = record {
  now = 2000;
  owners = owners;
  kill_switch = false;
  config_version = some "v1";
  agent_state = some idle;
  agent_enabled = true;
  agent_retired = false;
  finance_agent_id = "cfo";
  tool_policy = record { allow = []; require_human_approval = "deploy.*" ∷ []; deny = [] };
  param_issues = [];
  custom_issues = [];
}

abbrev reply : ApprovalReply
reply = record {
  post_id = "p2";
  root_post_id = "p1";
  root_card_key = none;
  channel_id = "ch";
  user_id = "ann";
  is_bot = false;
  automated = false;
  active = true;
}

abbrev card : CardPost
card = record { post_id = "p1"; channel_id = "ch" }

requested : Case ℕ
requested = create_approval fs.digest ids 1000 owners draft

shown : Case ℕ
unfolding requested
shown = record requested { card = some card }

approved : Case ℕ
unfolding shown
approved =
    (handle_approval_reply fs.digest fs.code_of env "t1" reply (some (approve "AB12-CD34-EF56"))
      shown).0

started : Case ℕ
unfolding approved
started = (begin_tool_action env true 1 "deploy.site" approved).0

succeeded : Case ℕ
unfolding started
succeeded = (handle_tool_report fs.redact env "deploy" 1 (report_succeeded 7) started).0

shown_history : Reach fs requested shown
unfolding shown
shown_history = after start (Step.card_posted card)

succeeded_history : Reach fs requested succeeded
unfolding shown approved started succeeded
succeeded_history =
    after
      (after
        (after (after start (Step.card_posted card))
          (Step.reply env "t1" reply (some (approve "AB12-CD34-EF56"))))
        (Step.begin env true 1 "deploy.site"))
      (Step.report env "deploy" 1 (report_succeeded 7))

begun-at_most_once_example : length succeeded.begun ≤ 1
unfolding requested
begun-at_most_once_example = begun-at_most_once fs ids 1000 owners draft succeeded succeeded_history

begun-IsApproved_example :
    (succeeded.approval.status ≡ ApprovalStatus.granted)
    × (tool_action_idempotency_key "a1" "deploy.site"
        ≡ tool_action_idempotency_key "a1" (draft_hash fs draft))
    × ((user : String) × (succeeded.approval.decided_by_user_id ≡ some user)
        × (includes owners user ≡ true))
unfolding requested shown approved started succeeded create_approval new_approval
    handle_approval_reply decide not_approver grant_request execution_issues approved_action_issues
    evaluate_tool is_finance_read tool_pattern_covers approval_action_hash tool_namespace
    accept_grant queued_action extend_approval_wait record_decision audit post_notice
    begin_tool_action handle_tool_report settled post_notice_on_card resolve_approval
    approval_outcome tool_action_idempotency_key
begun-IsApproved_example =
    begun-IsApproved fs ids 1000 owners draft succeeded succeeded_history
      (tool_action_idempotency_key "a1" "deploy.site") refl

resolved-once_example : length succeeded.resolved_events ≡ events_of succeeded.approval.resolved_at
unfolding requested
resolved-once_example = resolved-once fs ids 1000 owners draft succeeded succeeded_history

Reach-ApprovalGuard_example :
    ApprovalGuard requested.approval succeeded.approval × WellFormed (core succeeded)
unfolding requested
Reach-ApprovalGuard_example =
    Reach-ApprovalGuard fs succeeded_history
      (History-WellFormed fs ids 1000 owners draft requested start)

granted_now : approved.approval.status ≡ ApprovalStatus.granted
unfolding requested shown approved started succeeded create_approval new_approval
    handle_approval_reply decide not_approver grant_request execution_issues approved_action_issues
    evaluate_tool is_finance_read tool_pattern_covers approval_action_hash tool_namespace
    accept_grant queued_action extend_approval_wait record_decision audit post_notice
    begin_tool_action handle_tool_report settled post_notice_on_card resolve_approval
    approval_outcome tool_action_idempotency_key
granted_now = refl

asked_before : shown.approval.status ≡ ApprovalStatus.pending
unfolding requested shown create_approval new_approval
asked_before = refl

decision-IsAuthorized_example :
    IsAuthorized fs.digest fs.code_of env reply (some (approve "AB12-CD34-EF56")) shown
unfolding approved
decision-IsAuthorized_example =
    decision-IsAuthorized fs.digest fs.code_of env "t1" reply (some (approve "AB12-CD34-EF56"))
      shown (λ same. ground (arith, sym granted_now ∙ same ∙ asked_before))

granted-IsAllowed_example : IsAllowed fs.digest env shown.approval
unfolding approved
granted-IsAllowed_example =
    granted-IsAllowed fs.digest fs.code_of env "t1" reply (some (approve "AB12-CD34-EF56")) shown
      (λ same. ground (arith, sym asked_before ∙ same)) granted_now

begin-iff_may_begin_example :
    is_begun (begin_tool_action env true 1 "deploy.site" approved).1
    ≡ may_begin env true 1 "deploy.site" approved.approval.status approved.action
begin-iff_may_begin_example = begin-iff_may_begin env true 1 "deploy.site" approved

handle_tool_report-IsTaken_example :
    (is_applied (handle_tool_report fs.redact env "deploy" 1 (report_failed "late") succeeded).1
      ≡ counts env "deploy" 1 (report_failed "late") succeeded.action)
    × (counts env "deploy" 1 (report_failed "late") succeeded.action ≡ false
        → core (handle_tool_report fs.redact env "deploy" 1 (report_failed "late") succeeded).0
          ≡ core succeeded)
handle_tool_report-IsTaken_example =
    handle_tool_report-IsTaken fs.redact env "deploy" 1 (report_failed "late") succeeded

abbrev conflict_alerts : List String
conflict_alerts = "tool-conflict:t1:failed" ∷ []

abbrev overdue : List (Case ℕ)
overdue = requested ∷ succeeded ∷ approved ∷ []

-- Each transaction reads the clock a second later than the sweep, and one of them throws.
abbrev a_second_later : String → ℕ
a_second_later id = 90001000

abbrev throws_for : String → Bool
throws_for id = str_eq id "a9"

sweep_candidates-all_resolved_example :
    AreSettled 90000000 a_second_later throws_for overdue
      ((sweep_candidates 90000000 a_second_later throws_for overdue).0)
    × ((sweep_candidates 90000000 a_second_later throws_for overdue).1
        ≡ count_if (is_swept 90000000 a_second_later throws_for) overdue)
unfolding is_due requested shown approved started succeeded create_approval new_approval
    handle_approval_reply decide not_approver grant_request execution_issues approved_action_issues
    evaluate_tool is_finance_read tool_pattern_covers approval_action_hash tool_namespace
    accept_grant queued_action extend_approval_wait record_decision audit post_notice
    begin_tool_action handle_tool_report settled post_notice_on_card resolve_approval
    approval_outcome tool_action_idempotency_key
sweep_candidates-all_resolved_example =
    sweep_candidates-all_resolved 90000000 a_second_later throws_for overdue (λ id. omega arith)
      (omega arith)

-- The expired request, and the action that was granted and never begun.
overdue_counted : count_if (is_due 90000000) overdue ≡ 2
unfolding is_due requested shown approved started succeeded create_approval new_approval
    handle_approval_reply decide not_approver grant_request execution_issues approved_action_issues
    evaluate_tool is_finance_read tool_pattern_covers approval_action_hash tool_namespace
    accept_grant queued_action extend_approval_wait record_decision audit post_notice
    begin_tool_action handle_tool_report settled post_notice_on_card resolve_approval
    approval_outcome tool_action_idempotency_key
overdue_counted = refl

-- A report of a settled action is ignored, and its alert says so.
conflict_ignored :
    (handle_tool_report fs.redact env "deploy" 1 (report_failed "late") succeeded).0.alerts
    ≡ conflict_alerts
unfolding conflicting_report raise_alert requested shown approved started succeeded create_approval
    new_approval handle_approval_reply decide not_approver grant_request execution_issues
    approved_action_issues evaluate_tool is_finance_read tool_pattern_covers approval_action_hash
    tool_namespace accept_grant queued_action extend_approval_wait record_decision audit post_notice
    begin_tool_action handle_tool_report settled post_notice_on_card resolve_approval
    approval_outcome tool_action_idempotency_key
conflict_ignored = refl
