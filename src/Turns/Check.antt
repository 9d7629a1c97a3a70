-- ===== src/Turns/Check.antt =====
-- checkTurnResultAuthority of packages/contracts/src/turn-authority.ts. The names that a text mentions
-- (mentionedNames, over the Unicode classes of the language) are an argument.
use agent_gateway_control.Prelude.{
  ℕ, suc, String, str_eq, Bool, ◌&&◌, ◌||◌, not, Option, none, some, List, [], ◌∷◌, ◌++◌, includes,
  map, if◌then◌else◌,
}
use agent_gateway_control.Prelude.Maps.{lookup}
use agent_gateway_control.Policy.Patterns.{covers}
use agent_gateway_control.Waits.Matching.{WaitCondition}
use agent_gateway_control.Turns.Result.{
  Visibility, private, shared, public, ArtifactRef, TurnMessage, Artifact, NextState, idle, failed,
  waiting, needs_human, TurnResult, TurnAuthorityContext, AddressPath, target_path, sender_path,
  TurnAuthorityIssue, other_run, post_not_allowed, channel_not_allowed, mention_not_targeted,
  addresses_itself, not_addressable, not_a_member, artifact_not_produced, artifact_private,
  artifact_not_attachable, user_not_waitable, target_not_self, approval_not_allowed,
  namespace_not_writable,
}

-- Array.prototype.forEach with the index, collecting what each call pushes.
abbrev pub for_each :
    {A : Type 0} → ℕ → (ℕ → A → List TurnAuthorityIssue) → List A → List TurnAuthorityIssue
for_each i f [] = []
for_each i f (x ∷ xs) = f i x ++ for_each (suc i) f xs

-- An issue unless the test holds.
abbrev pub unless : Bool → TurnAuthorityIssue → List TurnAuthorityIssue
unless holds issue = if holds then [] else issue ∷ []

abbrev pub post_tool : String
post_tool = "mattermost.post"

abbrev pub may_post : TurnAuthorityContext → Bool
may_post context =
    covers context.tool_policy.allow post_tool
    && not (covers context.tool_policy.deny post_tool)
    && not (covers context.tool_policy.require_human_approval post_tool)

abbrev pub keys : List (String × List String) → List String
keys entries = map (λ entry. entry.0) entries

abbrev pub is_known : TurnAuthorityContext → String → Bool
is_known context name =
    str_eq context.agent_id name
    || includes context.registered_agent_ids name
    || includes (keys context.addressable_agents) name

abbrev pub or_else_visibility : Option Visibility → Option Visibility → Option Visibility
or_else_visibility none v = v
or_else_visibility (some v) w = some v

-- The Map from keys to visibilities: a later artifact with the key replaces an earlier one.
abbrev pub produced : List Artifact → String → Option Visibility
produced [] key = none
produced (artifact ∷ artifacts) key =
    or_else_visibility (produced artifacts key)
      (if str_eq artifact.key key then some artifact.visibility else none)

module _ (context : TurnAuthorityContext) where
  -- The issues about addressing the agent; with its channels, where there are none yet, the rest.
  abbrev pub with_channels :
      AddressPath
      → String
      → Option (List String)
      → (List String → List TurnAuthorityIssue)
      → List TurnAuthorityIssue
  with_channels path agent none rest = not_addressable path agent ∷ []
  with_channels path agent (some channels) rest = rest channels

  unfoldable pub addressable_channels :
      AddressPath → String → (List String → List TurnAuthorityIssue) → List TurnAuthorityIssue
  addressable_channels path agent rest =
      if str_eq agent context.agent_id
      then addresses_itself path agent ∷ []
      else with_channels path agent (lookup agent context.addressable_agents) rest

  unfoldable pub mention_issues : ℕ → TurnMessage → List String → List TurnAuthorityIssue
  mention_issues i message [] = []
  mention_issues i message (name ∷ names) =
      unless (not (is_known context name) || includes message.target_agent_ids name)
        (mention_not_targeted i name)
      ++ mention_issues i message names

  unfoldable pub target_issues : ℕ → TurnMessage → ℕ → String → List TurnAuthorityIssue
  target_issues i message j target = addressable_channels (target_path i j) target λ channels.
      unless (includes channels message.channel_id)
        (not_a_member (target_path i j) target message.channel_id)

  abbrev pub produced_issues : ℕ → ℕ → String → Option Visibility → List TurnAuthorityIssue
  produced_issues i j key none = artifact_not_produced i j key ∷ []
  produced_issues i j key (some private) = artifact_private i j key ∷ []
  produced_issues i j key (some shared) = []
  produced_issues i j key (some public) = []

  abbrev pub key_issues : ℕ → ℕ → List Artifact → Option String → List TurnAuthorityIssue
  key_issues i j artifacts none = []
  key_issues i j artifacts (some key) = produced_issues i j key (produced artifacts key)

  abbrev pub id_issues : ℕ → ℕ → Option String → List TurnAuthorityIssue
  id_issues i j none = []
  id_issues i j (some id) =
      unless (includes context.attachable_artifact_ids id) (artifact_not_attachable i j id)

  unfoldable pub attachment_issues : ℕ → List Artifact → ℕ → ArtifactRef → List TurnAuthorityIssue
  attachment_issues i artifacts j attachment =
      key_issues i j artifacts attachment.artifact_key ++ id_issues i j attachment.artifact_id

  unfoldable pub sender_issues : ℕ → ℕ → String → List TurnAuthorityIssue
  sender_issues i j sender = addressable_channels (sender_path i j) sender (λ channels. [])

  unfoldable pub user_issues : ℕ → ℕ → String → List TurnAuthorityIssue
  user_issues i j user =
      unless (includes context.waitable_user_ids user) (user_not_waitable i j user)

  abbrev pub own_target_issues : ℕ → Option String → List TurnAuthorityIssue
  own_target_issues i none = []
  own_target_issues i (some agent) = unless (str_eq agent context.agent_id) (target_not_self i)

  unfoldable pub wait_issues : ℕ → WaitCondition → List TurnAuthorityIssue
  wait_issues i wait =
      for_each 0 (sender_issues i) wait.expected_sender_agent_ids
      ++ (for_each 0 (user_issues i) wait.expected_sender_user_ids
          ++ own_target_issues i wait.require_target_agent_id)

  unfoldable pub state_issues : NextState → List TurnAuthorityIssue
  state_issues idle = []
  state_issues failed = []
  state_issues (waiting waits) = for_each 0 wait_issues waits
  state_issues (needs_human action_type) =
      unless
        (not (covers context.tool_policy.deny action_type)
          && covers context.tool_policy.require_human_approval action_type)
        (approval_not_allowed action_type)

  unfoldable pub namespace_issues : ℕ → String → List TurnAuthorityIssue
  namespace_issues i namespace =
      unless (includes context.writable_memory_namespaces namespace)
        (namespace_not_writable i namespace)

  module _ (mentioned_names : String → List String) where
    unfoldable pub message_issues : List Artifact → ℕ → TurnMessage → List TurnAuthorityIssue
    message_issues artifacts i message =
        unless (may_post context) (post_not_allowed i)
        ++ (unless (includes context.allowed_channel_ids message.channel_id)
              (channel_not_allowed i message.channel_id)
            ++ (mention_issues i message (mentioned_names message.markdown)
                ++ (for_each 0 (target_issues i message) message.target_agent_ids
                    ++ for_each 0 (attachment_issues i artifacts) message.attachments)))

    unfoldable pub check_turn_result_authority : TurnResult → List TurnAuthorityIssue
    check_turn_result_authority result =
        unless (str_eq result.run_id context.run_id) (other_run result.run_id)
        ++ (for_each 0 (message_issues result.artifacts) result.public_messages
            ++ (state_issues result.next_state
                ++ for_each 0 namespace_issues result.memory_proposals))
