-- ===== src/Approvals/Actions.antt =====
-- The rows of `tool_actions` (packages/db/src/schema.ts) and a tool runner's reports
-- (packages/contracts/src/tool-action.ts). `R` is the receipt of an executor.
use Prim.Native.String.{◌++◌ as str_append, slice, find}
use agent_gateway_control.Prelude.{
  ℕ, String, Bool, true, false, Option, none, some, List, [], ◌∷◌, includes, if◌then◌else◌,
}

pub data ToolActionStatus : Type 0 where
  queued running succeeded failed unknown cancelled : ToolActionStatus

pub record ToolActionRow (R : Type 0) : Type 0 where
  pub id : String
  pub approval_id : String
  pub agent_id : String
  pub namespace : String
  pub action_type : String
  pub action_params : List (String × String)
  pub immutable_action_hash : String
  pub idempotency_key : String
  pub status : ToolActionStatus
  pub attempt : ℕ
  pub config_version : String
  pub deadline_at : ℕ
  pub cancel_requested_at : Option ℕ
  pub started_at : Option ℕ
  pub completed_at : Option ℕ
  pub receipt : Option R
  pub error_redacted : Option String

abbrev pub is_queued : ToolActionStatus → Bool
is_queued queued = true
is_queued _ = false

abbrev pub is_running : ToolActionStatus → Bool
is_running running = true
is_running _ = false

abbrev pub is_unknown : ToolActionStatus → Bool
is_unknown unknown = true
is_unknown _ = false

abbrev pub is_cancelled : ToolActionStatus → Bool
is_cancelled cancelled = true
is_cancelled _ = false

pub data ToolReport (R : Type 0) : Type 0 where
  report_succeeded : R → ToolReport R
  report_failed : String → ToolReport R
  report_unknown : String → ToolReport R
  report_refused : String → ToolReport R

pub record ToolActionJob : Type 0 where
  pub action_id : String
  pub approval_id : String
  pub attempt : ℕ
  pub agent_id : String
  pub action_type : String
  pub action_params : List (String × String)
  pub immutable_action_hash : String
  pub deadline : ℕ

abbrev tool_namespaces : List String
tool_namespaces = "finance" ∷ "mail" ∷ "deploy" ∷ "publish" ∷ "issue" ∷ "custom" ∷ "utility" ∷ []

-- `actionType.split(".")[0]`, where it is a namespace that the broker executes
unfoldable pub tool_namespace : String → Option String
tool_namespace action_type =
    let segment = slice action_type 0 (find action_type ".") in
    if includes tool_namespaces segment then some segment else none

unfoldable pub tool_action_idempotency_key : String → String → String
tool_action_idempotency_key approval_id action_hash =
    str_append "tool-action:" (str_append approval_id (str_append ":" action_hash))
