-- ===== src/Policy/Tools.antt =====
-- What an agent may do with one action (packages/policy/src/tools.ts), decided outside the model.
use Prim.Native.String.{◌++◌ as str_append}
use agent_gateway_control.Prelude.{
  String, str_eq, starts_with, Bool, ◌&&◌, not, List, [], ◌∷◌, if◌then◌else◌,
}
use agent_gateway_control.Policy.Patterns.{tool_pattern_covers, covers}

-- The three permission lists of an agent.
pub record ToolLists : Type 0 where
  pub allow : List String
  pub require_human_approval : List String
  pub deny : List String

pub data ToolDecision : Type 0 where
  granted : ToolDecision
  require_approval : ToolDecision
  denied : ToolDecision

pub record ToolEvaluation : Type 0 where
  pub decision : ToolDecision
  pub reason : String

pub record ToolSubject : Type 0 where
  pub agent_id : String
  pub finance_agent_id : String

abbrev pub finance_read : String
finance_read = "finance.read"

unfoldable pub is_finance_read : String → Bool
is_finance_read action_type = str_eq action_type finance_read

abbrev pub is_finance : String → Bool
is_finance action_type = starts_with action_type "finance."

-- `'${actionType}' ...`
abbrev quoted : String → String → String
quoted action_type text = str_append "'" (str_append action_type (str_append "'" text))

unfoldable pub evaluate_tool : ToolLists → ToolSubject → String → ToolEvaluation
unfolding is_finance_read
evaluate_tool lists subject action_type =
    if covers lists.deny action_type
    then record { decision = denied; reason = quoted action_type " is denied by policy" }
    else if is_finance action_type && not (str_eq subject.agent_id subject.finance_agent_id)
    then record {
      decision = denied;
      reason = str_append "only " (quoted subject.finance_agent_id " may use finance tools");
    }
    else if covers lists.require_human_approval action_type
    then record {
      decision = require_approval;
      reason = quoted action_type " needs a human approval";
    }
    else if covers lists.allow action_type
    then if is_finance action_type && not (is_finance_read action_type)
      then record {
        decision = denied;
        reason = str_append "finance write " (quoted action_type " always needs approval");
      }
      else record { decision = granted; reason = quoted action_type " is allowed" }
    else record { decision = denied; reason = quoted action_type " is not granted" }

-- Risk comes from policy, by the first rule that covers the action.
pub data RiskLevel : Type 0 where
  medium : RiskLevel
  high : RiskLevel
  critical : RiskLevel

abbrev risk_rules : List (String × RiskLevel)
risk_rules =
    ("finance.*", critical) ∷ ("deploy.*", high) ∷ ("mail.*", high) ∷ ("publish.*", high) ∷ []

abbrev first_rule : List (String × RiskLevel) → String → RiskLevel
first_rule [] action_type = medium
first_rule ((pattern, risk) ∷ rules) action_type =
    let rest = first_rule rules action_type in
    if tool_pattern_covers pattern action_type then risk else rest

unfoldable pub risk_level_for : String → RiskLevel
risk_level_for action_type = first_rule risk_rules action_type
