-- ===== src/Approvals/Resolve.antt =====
-- How an approval ends for its agent (packages/core/src/services/approval-store.ts).
use agent_gateway_control.Prelude.{
  ℕ, Bool, true, false, Option, none, some, [], ◌∷◌, ◌++◌, is_some, if◌then◌else◌,
}
use agent_gateway_control.Approvals.Requests.{ApprovalStatus}
use agent_gateway_control.Approvals.Actions.{ToolActionStatus, ToolActionRow}
use agent_gateway_control.Approvals.Case.{ApprovalOutcome, Decision, Case}

-- Null while the action is still open.
abbrev pub action_outcome : ToolActionStatus → Option ApprovalOutcome
action_outcome ToolActionStatus.queued = none
action_outcome ToolActionStatus.running = none
action_outcome ToolActionStatus.succeeded = some ApprovalOutcome.succeeded
action_outcome ToolActionStatus.failed = some ApprovalOutcome.failed
action_outcome ToolActionStatus.unknown = some ApprovalOutcome.unknown
action_outcome ToolActionStatus.cancelled = some ApprovalOutcome.cancelled

abbrev pub extended : ℕ → Option ℕ → Option ℕ
extended until none = none
extended until (some timeout) = some until

module _ {R : Type 0} where
  abbrev pub granted_outcome : Option (ToolActionRow R) → Option ApprovalOutcome
  granted_outcome none = none
  granted_outcome (some action) = action_outcome action.status

  unfoldable pub approval_outcome :
      ApprovalStatus → Option (ToolActionRow R) → Option ApprovalOutcome
  approval_outcome ApprovalStatus.denied action = some ApprovalOutcome.denied
  approval_outcome ApprovalStatus.expired action = some ApprovalOutcome.expired
  approval_outcome ApprovalStatus.cancelled action = some ApprovalOutcome.cancelled
  approval_outcome ApprovalStatus.granted action = granted_outcome action
  approval_outcome ApprovalStatus.pending action = none

  abbrev pub emit_resolved : ℕ → Option ApprovalOutcome → Case R → Case R × Bool
  emit_resolved now none c = (c, false)
  emit_resolved now (some outcome) c = if is_some c.approval.resolved_at then (c, false) else (
    record c {
      approval = record c.approval { resolved_at = some now };
      resolved_events = c.resolved_events ++ outcome ∷ [];
    },
    true,
  )

  -- Emits `approval.resolved` once; whether it did.
  unfoldable pub resolve_approval : ℕ → Case R → Case R × Bool
  resolve_approval now c = emit_resolved now (approval_outcome c.approval.status c.action) c

  unfoldable pub record_decision : Decision → Case R → Case R
  record_decision decision c = record c { decisions = c.decisions ++ decision ∷ [] }

  -- Moves the active wait, if there is one.
  unfoldable pub extend_approval_wait : ℕ → Case R → Case R
  extend_approval_wait until c = record c { wait_until = extended until c.wait_until }
