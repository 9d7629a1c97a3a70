-- ===== src/Approvals/Case.antt =====
-- One approval as its handlers see it under lockApproval: the request, its action, and what else they
-- read and write of it. Each handler runs in one transaction that holds this lock.
use Prim.Native.String.{◌++◌ as str_append}
use agent_gateway_control.Prelude.{
  ℕ, String, Bool, Option, List, [], ◌∷◌, ◌++◌, includes, is_some, if◌then◌else◌,
}
use agent_gateway_control.Approvals.Requests.{ApprovalRow}
use agent_gateway_control.Approvals.Actions.{ToolActionRow, ToolActionJob}

pub data ApprovalOutcome : Type 0 where
  denied expired cancelled succeeded failed unknown : ApprovalOutcome

pub data ApprovalNotice : Type 0 where
  granted denied refused not_an_approver malformed wrong_code already_decided expired withdrawn
        executed :
      ApprovalNotice

-- The record-only events of a decision.
pub data Decision : Type 0 where
  approval_granted : String → Decision
  approval_denied : String → Decision

-- The delivered card: the post and its channel.
pub record CardPost : Type 0 where
  pub post_id : String
  pub channel_id : String

pub record Case (R : Type 0) : Type 0 where
  pub approval : ApprovalRow
  pub action : Option (ToolActionRow R)
  pub card : Option CardPost
  -- The card's delivery has given up.
  pub card_dead : Bool
  -- The replies handled, by their posts.
  pub replies : List (String × ApprovalNotice)
  -- The end of the agent's wait for this approval, while it is active.
  pub wait_until : Option ℕ
  -- The keys of the notices and alerts posted: a second one with a key is a no-op.
  pub notices : List String
  pub alerts : List String
  -- The `approval.resolved` events and the decisions emitted.
  pub resolved_events : List ApprovalOutcome
  pub decisions : List Decision
  -- The decisions of the policy and their reasons.
  pub policy_decisions : List (String × String)
  pub jobs : List ToolActionJob
  -- The idempotency keys that `begin` handed to executors.
  pub begun : List String
  pub audit_log : List (String × String)

abbrev pub add_key : String → List String → List String
add_key key keys = if includes keys key then keys else keys ++ key ∷ []

module _ {R : Type 0} where
  unfoldable pub audit : String → String → Case R → Case R
  audit actor action c = record c { audit_log = c.audit_log ++ (actor, action) ∷ [] }

  unfoldable pub raise_alert : String → Case R → Case R
  raise_alert key c = record c { alerts = add_key key c.alerts }

  unfoldable pub post_notice : String → Case R → Case R
  post_notice key c = record c { notices = add_key key c.notices }

  -- A notice about an approval whose card is delivered.
  unfoldable pub post_notice_on_card : String → Case R → Case R
  unfolding post_notice
  post_notice_on_card key c = if is_some c.card then post_notice key c else c

abbrev pub keyed : String → String → String
keyed prefix id = str_append prefix id
