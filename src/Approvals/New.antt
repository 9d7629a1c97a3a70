-- ===== src/Approvals/New.antt =====
-- A new approval request: prepareApprovalIdentity and createApproval of
-- packages/core/src/services/runs.ts, as far as they write the request, its wait and its audit.
use agent_gateway_control.Prelude.{ℕ, ◌+◌, ◌*◌, String, false, none, some, List, [], ◌∷◌}
use agent_gateway_control.Approvals.Requests.{ApprovalStatus, ApprovalRow}
use agent_gateway_control.Approvals.Case.{Case}
use agent_gateway_control.Approvals.Execution.{approval_action_hash}

abbrev approval_ttl_ms : ℕ
approval_ttl_ms = 24 * 60 * 60 * 1000

-- What the run asks for: its agent and itself, and the drafted action.
pub record ApprovalDraft : Type 0 where
  pub run_id : String
  pub agent_id : String
  pub action_type : String
  pub action_params : List (String × String)

-- The identifiers that the code draws at random.
pub record FreshIds : Type 0 where
  pub approval_id : String
  pub nonce : String

module _ (digest : String → List (String × String) → String) where
  unfoldable pub new_approval : FreshIds → ℕ → List String → ApprovalDraft → ApprovalRow
  new_approval ids now approvers draft = record {
    id = ids.approval_id;
    requested_by_agent_id = draft.agent_id;
    run_id = draft.run_id;
    action_type = draft.action_type;
    action_params = draft.action_params;
    immutable_action_hash = approval_action_hash digest draft.action_type draft.action_params;
    allowed_approver_user_ids = approvers;
    nonce = ids.nonce;
    created_at = now;
    expires_at = now + approval_ttl_ms;
    status = ApprovalStatus.pending;
    decided_by_user_id = none;
    decided_at = none;
    decision_post_id = none;
    resolved_at = none;
  }

  unfoldable pub create_approval :
      {R : Type 0} → FreshIds → ℕ → List String → ApprovalDraft → Case R
  unfolding new_approval
  create_approval ids now approvers draft =
      let approval = new_approval ids now approvers draft in
      record {
        approval = approval;
        action = none;
        card = none;
        card_dead = false;
        replies = [];
        wait_until = some approval.expires_at;
        notices = [];
        alerts = [];
        resolved_events = [];
        decisions = [];
        policy_decisions = [];
        jobs = [];
        begun = [];
        audit_log = ("system", "approval.requested") ∷ [];
      }
