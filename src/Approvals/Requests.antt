-- ===== src/Approvals/Requests.antt =====
-- The rows of `approval_requests` (packages/db/src/schema.ts), and how an approval ends.
use agent_gateway_control.Prelude.{ℕ, String, Bool, true, false, Option, List}

pub data ApprovalStatus : Type 0 where
  pending granted denied expired cancelled : ApprovalStatus

pub record ApprovalRow : Type 0 where
  pub id : String
  pub requested_by_agent_id : String
  pub run_id : String
  pub action_type : String
  pub action_params : List (String × String)
  pub immutable_action_hash : String
  pub allowed_approver_user_ids : List String
  pub nonce : String
  pub created_at : ℕ
  pub expires_at : ℕ
  pub status : ApprovalStatus
  pub decided_by_user_id : Option String
  pub decided_at : Option ℕ
  pub decision_post_id : Option String
  pub resolved_at : Option ℕ

abbrev pub is_pending : ApprovalStatus → Bool
is_pending pending = true
is_pending _ = false

abbrev pub is_granted : ApprovalStatus → Bool
is_granted granted = true
is_granted _ = false

abbrev pub is_expired : ApprovalStatus → Bool
is_expired expired = true
is_expired _ = false

abbrev pub is_cancelled : ApprovalStatus → Bool
is_cancelled cancelled = true
is_cancelled _ = false
