-- ===== src/Approvals/Execution.antt =====
-- What the policy says about executing an approved action now: executionIssues of approvals.ts, and
-- approvedActionIssues of packages/policy/src/tools.ts.
use Prim.Native.String.{◌++◌ as str_append}
use agent_gateway_control.Prelude.{
  ℕ, String, str_eq, Bool, true, false, Option, none, some, List, [], ◌∷◌, ◌++◌, is_none,
  if◌then◌else◌,
}
use agent_gateway_control.Prelude.Maps.{str_lt}
use agent_gateway_control.Prelude.Sort.{sort}
use agent_gateway_control.Agents.StateMachine.{AgentState, disabled}
use agent_gateway_control.Policy.Tools.{
  ToolLists, ToolSubject, ToolDecision, require_approval, evaluate_tool,
}
use agent_gateway_control.Approvals.Requests.{ApprovalRow}
use agent_gateway_control.Approvals.Actions.{tool_namespace}

abbrev pub asks_approval : ToolDecision → Bool
asks_approval require_approval = true
asks_approval _ = false

-- `param_issues` is what the typed schema of the action says of its parameters.
unfoldable pub approved_action_issues : ToolLists → ToolSubject → String → List String → List String
approved_action_issues lists subject action_type param_issues =
    let evaluation = evaluate_tool lists subject action_type in
    if asks_approval evaluation.decision then param_issues else evaluation.reason ∷ []

abbrev pub is_disabled : AgentState → Bool
is_disabled disabled = true
is_disabled _ = false

-- What the transaction reads beside the approval: the clock, the owners, the kill switch, the active
-- configuration, the agent with its effective permissions, and what the parameter schemas and the
-- custom tool definitions say.
pub record Env : Type 0 where
  pub now : ℕ
  pub owners : List String
  pub kill_switch : Bool
  pub config_version : Option String
  pub agent_state : Option AgentState
  pub agent_enabled : Bool
  pub agent_retired : Bool
  pub finance_agent_id : String
  pub tool_policy : ToolLists
  pub param_issues : List String
  pub custom_issues : List String

-- Parameters in the order of their names; `digest` is the hash of the canonical JSON.
abbrev pub name_before : String × String → String × String → Bool
name_before a b = str_lt a.0 b.0

abbrev pub namespace_issues : ApprovalRow → List String
namespace_issues approval =
    if is_none (tool_namespace approval.action_type)
    then str_append "no tool namespace executes '" (str_append approval.action_type "'") ∷ []
    else []

module _ (digest : String → List (String × String) → String) where
  unfoldable pub approval_action_hash : String → List (String × String) → String
  approval_action_hash action_type params = digest action_type (sort name_before params)

  abbrev pub hash_issues : ApprovalRow → List String
  hash_issues approval =
      if str_eq (approval_action_hash approval.action_type approval.action_params)
        approval.immutable_action_hash
      then []
      else "the stored action no longer matches its hash" ∷ []

  abbrev pub enabled_issues : Env → ApprovalRow → List String
  enabled_issues env approval =
      approved_action_issues env.tool_policy
        (record {
          agent_id = approval.requested_by_agent_id;
          finance_agent_id = env.finance_agent_id;
        })
        approval.action_type env.param_issues
      ++ env.custom_issues
      ++ hash_issues approval
      ++ namespace_issues approval

  abbrev pub agent_issues : Env → ApprovalRow → AgentState → List String
  agent_issues env approval state =
      if is_disabled state
      then str_append "@" (str_append approval.requested_by_agent_id " is disabled") ∷ []
      else enabled_issues env approval

  abbrev pub configured_issues : Option AgentState → Env → ApprovalRow → List String
  configured_issues none env approval = "the requesting agent is no longer configured" ∷ []
  configured_issues (some state) env approval =
      if is_none env.config_version
      then "the requesting agent is no longer configured" ∷ []
      else agent_issues env approval state

  unfoldable pub execution_issues : Env → ApprovalRow → List String
  execution_issues env approval = configured_issues env.agent_state env approval
