-- ===== src/Approvals/Life.antt =====
-- The transactions that touch an approval from its request on, in any order and at any times.
use agent_gateway_control.Prelude.{ℕ, String, Bool, Option, some, List, ◌≡◌, ok}
use agent_gateway_control.Approvals.Requests.{ApprovalRow}
use agent_gateway_control.Approvals.Actions.{ToolReport}
use agent_gateway_control.Approvals.Case.{CardPost, Case}
use agent_gateway_control.Approvals.Execution.{Env}
use agent_gateway_control.Approvals.Decide.{ApprovalReply, ApprovalCommand, handle_approval_reply}
use agent_gateway_control.Approvals.Begin.{begin_tool_action}
use agent_gateway_control.Approvals.Settle.{sweep_one, settle_approval_on_timeout}
use agent_gateway_control.Approvals.Reports.{ManualOutcome, handle_tool_report, settle_tool_action}
use agent_gateway_control.Approvals.Withdraw.{withdraw_open_approvals, revoke_queued_actions}
use agent_gateway_control.Approvals.Writes.{core, Writes, here, Writes-append}
use agent_gateway_control.Approvals.Replied.{handle_approval_reply-Writes}
use agent_gateway_control.Approvals.Swept.{
  sweep_one-Writes, settle_approval_on_timeout-Writes, begin_tool_action-Writes,
}
use agent_gateway_control.Approvals.Taken.{handle_tool_report-Writes, settle_tool_action-Writes}
use agent_gateway_control.Approvals.Withdrawn.{
  withdraw_open_approvals-Writes, revoke_queued_actions-Writes,
}

-- The functions of the code that are arguments of the handlers.
pub record Functions : Type 0 where
  pub digest : String → List (String × String) → String
  pub code_of : ApprovalRow → String
  pub redact : String → String
  pub reason_of : List String → String

module _ {R : Type 0} (fs : Functions) where
  pub data Step (c : Case R) : Case R → Type 0 where
    reply :
        (env : Env) (action_id : String) (r : ApprovalReply) (command : Option ApprovalCommand)
        → Step c (handle_approval_reply fs.digest fs.code_of env action_id r command c).0
    begin :
        (env : Env) (served : Bool) (attempt : ℕ) (hash : String)
        → Step c (begin_tool_action env served attempt hash c).0
    report :
        (env : Env) (namespace : String) (attempt : ℕ) (r : ToolReport R)
        → Step c (handle_tool_report fs.redact env namespace attempt r c).0
    sweep : (now : ℕ) → Step c (sweep_one now c).0
    wait_timeout : (now : ℕ) → Step c (settle_approval_on_timeout now c).0
    withdraw :
        (now : ℕ) (agent : Option String) (reason : String) (pending_only : Bool)
        → Step c (withdraw_open_approvals now agent reason pending_only c)
    revoke : (env : Env) → Step c (revoke_queued_actions fs.digest fs.reason_of env c)
    settle :
        (now : ℕ) (outcome : ManualOutcome) (actor note : String) (d : Case R)
        → settle_tool_action fs.redact now outcome actor note c ≡ ok d
        → Step c d
    -- the outbox delivers the card, or gives up
    card_posted : (post : CardPost) → Step c (record c { card = some post })
    card_given_up : (dead : Bool) → Step c (record c { card_dead = dead })

  pub data Reach (c : Case R) : Case R → Type 0 where
    start : Reach c c
    after : {d e : Case R} → Reach c d → Step d e → Reach c e

  pub Step-Writes : {c d : Case R} → Step c d → Writes (core c) (core d)
  Step-Writes {c} (reply env id r command) =
      handle_approval_reply-Writes fs.digest fs.code_of env id r command c
  Step-Writes {c} (begin env served attempt hash) =
      begin_tool_action-Writes env served attempt hash c
  Step-Writes {c} (report env namespace attempt r) =
      handle_tool_report-Writes fs.redact env namespace attempt r c
  Step-Writes {c} (sweep now) = sweep_one-Writes now c
  Step-Writes {c} (wait_timeout now) = settle_approval_on_timeout-Writes now c
  Step-Writes {c} (withdraw now agent reason pending_only) =
      withdraw_open_approvals-Writes now agent reason pending_only c
  Step-Writes {c} (revoke env) = revoke_queued_actions-Writes fs.digest fs.reason_of env c
  Step-Writes {c} (settle now outcome actor note d e) =
      settle_tool_action-Writes fs.redact now outcome actor note c d e
  Step-Writes (card_posted post) = here
  Step-Writes (card_given_up dead) = here

  pub Reach-Writes : {c d : Case R} → Reach c d → Writes (core c) (core d)
  Reach-Writes start = here
  Reach-Writes (after r s) = Writes-append (Reach-Writes r) (Step-Writes s)
