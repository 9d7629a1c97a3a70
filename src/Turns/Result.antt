-- ===== src/Turns/Result.antt =====
-- The parts of a turn's result (packages/contracts/src/turn.ts) that its authority is about, and what
-- the controller knows of the run (packages/contracts/src/turn-authority.ts).
use agent_gateway_control.Prelude.{ℕ, String, Option, List}
use agent_gateway_control.Policy.Tools.{ToolLists}
use agent_gateway_control.Waits.Matching.{WaitCondition}

pub data Visibility : Type 0 where
  private shared public : Visibility

pub record ArtifactRef : Type 0 where
  pub artifact_key : Option String
  pub artifact_id : Option String

pub record TurnMessage : Type 0 where
  pub channel_id : String
  pub markdown : String
  pub target_agent_ids : List String
  pub attachments : List ArtifactRef

pub record Artifact : Type 0 where
  pub key : String
  pub visibility : Visibility

-- `needs_human` with the type of the action that it asks for.
pub data NextState : Type 0 where
  idle failed : NextState
  waiting : List WaitCondition → NextState
  needs_human : String → NextState

pub record TurnResult : Type 0 where
  pub run_id : String
  pub public_messages : List TurnMessage
  pub next_state : NextState
  -- their namespaces
  pub memory_proposals : List String
  pub artifacts : List Artifact

pub record TurnAuthorityContext : Type 0 where
  pub run_id : String
  pub agent_id : String
  pub allowed_channel_ids : List String
  pub registered_agent_ids : List String
  pub addressable_agents : List (String × List String)
  pub writable_memory_namespaces : List String
  pub waitable_user_ids : List String
  pub attachable_artifact_ids : List String
  pub tool_policy : ToolLists

-- Where an agent is addressed: a target of a message, or a sender that a wait expects.
pub data AddressPath : Type 0 where
  target_path : ℕ → ℕ → AddressPath
  sender_path : ℕ → ℕ → AddressPath

pub data TurnAuthorityIssue : Type 0 where
  other_run : String → TurnAuthorityIssue
  post_not_allowed : ℕ → TurnAuthorityIssue
  channel_not_allowed : ℕ → String → TurnAuthorityIssue
  mention_not_targeted : ℕ → String → TurnAuthorityIssue
  addresses_itself : AddressPath → String → TurnAuthorityIssue
  not_addressable : AddressPath → String → TurnAuthorityIssue
  not_a_member : AddressPath → String → String → TurnAuthorityIssue
  artifact_not_produced : ℕ → ℕ → String → TurnAuthorityIssue
  artifact_private : ℕ → ℕ → String → TurnAuthorityIssue
  artifact_not_attachable : ℕ → ℕ → String → TurnAuthorityIssue
  user_not_waitable : ℕ → ℕ → String → TurnAuthorityIssue
  target_not_self : ℕ → TurnAuthorityIssue
  approval_not_allowed : String → TurnAuthorityIssue
  namespace_not_writable : ℕ → String → TurnAuthorityIssue
