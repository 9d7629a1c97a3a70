-- ===== src/Policy/Authority.antt =====
-- When evaluateTool grants an action, and when it asks for a human.
use agent_gateway_control.Prelude.{String, eq_iff, ◌≡◌, ◌↔◌, Bool, true, false, arith}
use agent_gateway_control.Policy.Patterns.{covers}
use agent_gateway_control.Policy.Tools.{
  ToolLists, ToolDecision, granted, require_approval, ToolSubject, finance_read, is_finance,
  evaluate_tool, is_finance_read,
}

-- The agent may touch the action at all: no list denies it, and finance belongs to its own agent.
abbrev pub MayTouch : ToolLists → ToolSubject → String → Type 0
MayTouch lists subject action_type =
    (covers lists.deny action_type ≡ false)
    × (is_finance action_type ≡ true → subject.agent_id ≡ subject.finance_agent_id)

abbrev pub is_granted : ToolDecision → Bool
is_granted granted = true
is_granted _ = false

abbrev pub needs_approval : ToolDecision → Bool
needs_approval require_approval = true
needs_approval _ = false

-- An action is allowed without a human exactly when no list denies it, it is not another agent's
-- finance action, no list asks for approval, a list allows it, and it is no finance write; it may go
-- to a human exactly when no list denies it, it is not another agent's finance action, and a list
-- asks for approval.
pub evaluate_tool_iff :
    (lists : ToolLists) (subject : ToolSubject) (action_type : String)
    → let decision = (evaluate_tool lists subject action_type).decision in
      ((is_granted decision ≡ true) ↔ (
        MayTouch lists subject action_type
        × ((covers lists.require_human_approval action_type ≡ false)
            × ((covers lists.allow action_type ≡ true)
                × (is_finance action_type ≡ true → action_type ≡ finance_read)))))
      × ((needs_approval decision ≡ true) ↔ (
          MayTouch lists subject action_type
          × (covers lists.require_human_approval action_type ≡ true)))
unfolding evaluate_tool is_finance_read
evaluate_tool_iff lists subject action_type =
    ground
      (arith, eq_iff subject.agent_id subject.finance_agent_id, eq_iff action_type finance_read)
