-- ===== src/Approvals/Decide.antt =====
-- A reply in the card's thread: handleApprovalReply of approvals.ts with decide, deny and grant. The
-- command that its message is (Codes) is an argument; `code_of` is the code of a request.
use Prim.Native.String.{◌++◌ as str_append}
use agent_gateway_control.Prelude.{
  ℕ, ◌+◌, ◌*◌, String, str_eq, Bool, true, false, ◌&&◌, not, Option, none, some, List, [], ◌∷◌,
  ◌++◌, leb, any, map, take, includes, if◌then◌else◌,
}
use agent_gateway_control.Approvals.Requests.{ApprovalStatus, ApprovalRow, is_pending, is_expired}
use agent_gateway_control.Approvals.Actions.{
  ToolActionStatus, ToolActionRow, ToolActionJob, tool_namespace, tool_action_idempotency_key,
}
use agent_gateway_control.Approvals.Case.{
  ApprovalNotice, approval_granted, approval_denied, CardPost, Case, audit, raise_alert,
  post_notice,
}
use agent_gateway_control.Approvals.Codes.{Command, approve, deny, malformed_command}
use agent_gateway_control.Approvals.Resolve.{
  resolve_approval, record_decision, extend_approval_wait,
}
use agent_gateway_control.Approvals.Execution.{Env, execution_issues}

abbrev pub ApprovalCommand : Type 0
ApprovalCommand = Command String

pub record ApprovalReply : Type 0 where
  pub post_id : String
  pub root_post_id : String
  pub root_card_key : Option String
  pub channel_id : String
  pub user_id : String
  pub is_bot : Bool
  pub automated : Bool
  pub active : Bool

pub data ReplyOutcome : Type 0 where
  ignored not_a_card replayed : ReplyOutcome
  answered : ApprovalNotice → ReplyOutcome
  -- thrown: the card is still being delivered
  card_pending : ReplyOutcome

abbrev pub tool_begin_window_ms : ℕ
tool_begin_window_ms = 15 * 60 * 1000

abbrev pub tool_run_grace_ms : ℕ
tool_run_grace_ms = 15 * 60 * 1000

abbrev pub wait_margin_ms : ℕ
wait_margin_ms = 5 * 60 * 1000

-- Why the author may not decide this request.
unfoldable pub not_approver : Env → ApprovalRow → ApprovalReply → Option String
not_approver env approval reply =
    if reply.is_bot
    then some "the author is a bot account"
    else if reply.automated
    then some "the post was made by an integration (webhook, bot or plugin props)"
    else if not reply.active
    then some "the author's account is deactivated"
    else if not (includes approval.allowed_approver_user_ids reply.user_id)
    then some "the author is not an approver of this request"
    else if not (includes env.owners reply.user_id)
    then some "the author is no longer an owner"
    else none

abbrev pub mattermost_actor : String → String
mattermost_actor user_id = str_append "mattermost:" user_id

abbrev pub decided : ApprovalStatus → Env → ApprovalReply → ApprovalRow → ApprovalRow
decided status env reply approval = record approval {
  status = status;
  decided_by_user_id = some reply.user_id;
  decided_at = some env.now;
  decision_post_id = some reply.post_id;
}

abbrev pub card_key : ApprovalRow → String
card_key approval = str_append "approval-card:" approval.id

abbrev pub is_key : Option String → String → Bool
is_key none key = false
is_key (some k) key = str_eq k key

module _ {R : Type 0} where
  unfoldable pub deny_request : Env → ApprovalReply → Case R → Case R × ApprovalNotice
  deny_request env reply c =
      let denied = record c { approval = decided ApprovalStatus.denied env reply c.approval } in
      let audited = audit (mattermost_actor reply.user_id) "approval.denied" denied in
      let recorded = record_decision (approval_denied reply.user_id) audited in
      ((resolve_approval env.now recorded).0, ApprovalNotice.denied)

  -- A grant that the policy refuses now: cancelled, no decision is recorded.
  unfoldable pub refuse_grant : Env → List String → ApprovalReply → Case R → Case R × ApprovalNotice
  refuse_grant env issues reply c =
      let cancelled = record c {
        approval = record c.approval {
          status = ApprovalStatus.cancelled;
          decision_post_id = some reply.post_id;
        };
        policy_decisions = c.policy_decisions ++ map (λ reason. ("deny", reason)) (take 20 issues);
      } in
      let audited = audit (mattermost_actor reply.user_id) "approval.refused" cancelled in
      let alerted = raise_alert (str_append "approval-refused:" c.approval.id) audited in
      ((resolve_approval env.now alerted).0, ApprovalNotice.refused)

  unfoldable pub queued_action : Env → String → String → String → ApprovalRow → ToolActionRow R
  queued_action env action_id namespace version approval = record {
    id = action_id;
    approval_id = approval.id;
    agent_id = approval.requested_by_agent_id;
    namespace = namespace;
    action_type = approval.action_type;
    action_params = approval.action_params;
    immutable_action_hash = approval.immutable_action_hash;
    idempotency_key = tool_action_idempotency_key approval.id approval.immutable_action_hash;
    status = ToolActionStatus.queued;
    attempt = 1;
    config_version = version;
    deadline_at = env.now + tool_begin_window_ms;
    cancel_requested_at = none;
    started_at = none;
    completed_at = none;
    receipt = none;
    error_redacted = none;
  }

  abbrev pub job_of : ToolActionRow R → ToolActionJob
  job_of action = record {
    action_id = action.id;
    approval_id = action.approval_id;
    attempt = action.attempt;
    agent_id = action.agent_id;
    action_type = action.action_type;
    action_params = action.action_params;
    immutable_action_hash = action.immutable_action_hash;
    deadline = action.deadline_at;
  }

  unfoldable pub accept_grant :
      Env → String → String → String → ApprovalReply → Case R → Case R × ApprovalNotice
  accept_grant env action_id namespace version reply c =
      let action = queued_action env action_id namespace version c.approval in
      let granted = record c {
        approval = decided ApprovalStatus.granted env reply c.approval;
        action = some action;
        policy_decisions = c.policy_decisions ++ ("allow", "approved by an owner") ∷ [];
        jobs = c.jobs ++ job_of action ∷ [];
      } in
      let waiting =
        extend_approval_wait (action.deadline_at + tool_run_grace_ms + wait_margin_ms) granted in
      let audited = audit (mattermost_actor reply.user_id) "approval.granted" waiting in
      (record_decision (approval_granted reply.user_id) audited, ApprovalNotice.granted)

  -- `action_id` is the id that the database gives the action.
  abbrev pub grant_checked :
      Env
      → String
      → ApprovalReply
      → Case R
      → Option String
      → Option String
      → List String
      → Case R × ApprovalNotice
  grant_checked env action_id reply c (some namespace) (some version) [] =
      accept_grant env action_id namespace version reply c
  grant_checked env action_id reply c (some namespace) (some version) (issue ∷ issues) =
      refuse_grant env (issue ∷ issues) reply c
  grant_checked env action_id reply c (some namespace) none issues = refuse_grant env issues reply c
  grant_checked env action_id reply c none version issues = refuse_grant env issues reply c

  module _ (digest : String → List (String × String) → String)
      (code_of : ApprovalRow → String) where
    unfoldable pub grant_request : Env → String → ApprovalReply → Case R → Case R × ApprovalNotice
    grant_request env action_id reply c =
        grant_checked env action_id reply c (tool_namespace c.approval.action_type)
          env.config_version
          (execution_issues digest env c.approval
            ++ (if env.kill_switch then "the kill switch is on" ∷ [] else []))

    abbrev pub carried_out : Env → String → ApprovalReply → Bool → Case R → Case R × ApprovalNotice
    carried_out env action_id reply approving c =
        if approving then grant_request env action_id reply c else deny_request env reply c

    -- The command of an approver with a code.
    abbrev pub decide_code :
        Env → String → ApprovalReply → Bool → String → Case R → Case R × ApprovalNotice
    decide_code env action_id reply approving code c =
        if not (str_eq code (code_of c.approval))
        then (audit "system" "approval.wrong_code" c, ApprovalNotice.wrong_code)
        else if is_expired c.approval.status
        then (c, ApprovalNotice.expired)
        else if not (is_pending c.approval.status)
        then (c, ApprovalNotice.already_decided)
        else if leb c.approval.expires_at env.now
        then (c, ApprovalNotice.expired)
        else carried_out env action_id reply approving c

    abbrev pub decide_command :
        Env → String → ApprovalReply → ApprovalCommand → Case R → Case R × ApprovalNotice
    decide_command env action_id reply malformed_command c = (c, ApprovalNotice.malformed)
    decide_command env action_id reply (approve code) c =
        decide_code env action_id reply true code c
    decide_command env action_id reply (deny code) c = decide_code env action_id reply false code c

    abbrev pub decide_by :
        Option String
        → Env
        → String
        → ApprovalReply
        → ApprovalCommand
        → Case R
        → Case R × ApprovalNotice
    decide_by (some refusal) env action_id reply command c = (
      raise_alert
          (str_append "approval-forgery:" (str_append c.approval.id (str_append ":" reply.user_id)))
          (audit "system" "approval.decision_rejected" c),
      ApprovalNotice.not_an_approver,
    )
    decide_by none env action_id reply command c = decide_command env action_id reply command c

    unfoldable pub decide :
        Env → String → ApprovalReply → ApprovalCommand → Case R → Case R × ApprovalNotice
    decide env action_id reply command c =
        decide_by (not_approver env c.approval reply) env action_id reply command c

    -- The answered reply is stored and acknowledged in the thread.
    abbrev pub answer : ApprovalReply → Case R × ApprovalNotice → Case R × ReplyOutcome
    answer reply (c, notice) = (
      post_notice (str_append "approval-reply:" reply.post_id)
          (record c { replies = c.replies ++ (reply.post_id, notice) ∷ [] }),
      answered notice,
    )

    abbrev pub on_card :
        Env → String → ApprovalReply → ApprovalCommand → Case R → Case R × ReplyOutcome
    on_card env action_id reply command c =
        if any (λ r. str_eq r.0 reply.post_id) c.replies
        then (c, replayed)
        else answer reply (decide env action_id reply command c)

    abbrev pub on_lookup :
        Option CardPost
        → Env
        → String
        → ApprovalReply
        → ApprovalCommand
        → Case R
        → Case R × ReplyOutcome
    on_lookup none env action_id reply command c =
        if is_key reply.root_card_key (card_key c.approval) && not c.card_dead
        then (c, card_pending)
        else (c, not_a_card)
    on_lookup (some card) env action_id reply command c =
        if str_eq card.post_id reply.root_post_id && str_eq card.channel_id reply.channel_id
        then on_card env action_id reply command c
        else (c, not_a_card)

    unfoldable pub handle_approval_reply :
        Env → String → ApprovalReply → Option ApprovalCommand → Case R → Case R × ReplyOutcome
    handle_approval_reply env action_id reply none c = (c, ignored)
    handle_approval_reply env action_id reply (some command) c =
        on_lookup c.card env action_id reply command c
