-- ===== src/Turns/Tests.antt =====
-- Results of a turn, accepted and refused.
use agent_gateway_control.Prelude.{String, none, some, List, [], ◌∷◌, ◌≡◌, ◌↔◌, refl}
use agent_gateway_control.Policy.Patterns.{tool_pattern_covers}
use agent_gateway_control.Turns.Result.{
  private, shared, TurnMessage, needs_human, TurnResult, TurnAuthorityContext, target_path,
  artifact_private, mention_not_targeted, addresses_itself, approval_not_allowed,
}
use agent_gateway_control.Turns.Check.{
  addressable_channels, mention_issues, target_issues, attachment_issues, state_issues,
  namespace_issues, message_issues, check_turn_result_authority,
}
use agent_gateway_control.Turns.Authority.{IsWithinAuthority, check_turn_result_authority_iff}

abbrev context : TurnAuthorityContext
context = record {
  run_id = "r1";
  agent_id = "writer";
  allowed_channel_ids = "general" ∷ [];
  registered_agent_ids = "editor" ∷ [];
  addressable_agents = ("editor", "general" ∷ []) ∷ [];
  writable_memory_namespaces = "agents/writer" ∷ [];
  waitable_user_ids = [];
  attachable_artifact_ids = [];
  tool_policy = record {
    allow = "mattermost.post" ∷ [];
    require_human_approval = "deploy.*" ∷ [];
    deny = [];
  };
}

-- Every text of these messages mentions the editor.
abbrev mentions : String → List String
mentions text = "editor" ∷ "someone" ∷ []

abbrev message : List String → TurnMessage
message targets = record {
  channel_id = "general";
  markdown = "Ready, @editor.";
  target_agent_ids = targets;
  attachments = record { artifact_key = some "draft"; artifact_id = none } ∷ [];
}

abbrev accepted_result : TurnResult
accepted_result = record {
  run_id = "r1";
  public_messages = message ("editor" ∷ []) ∷ [];
  next_state = needs_human "deploy.site";
  memory_proposals = "agents/writer" ∷ [];
  artifacts = record { key = "draft"; visibility = shared } ∷ [];
}

accepted : check_turn_result_authority context mentions accepted_result ≡ []
unfolding check_turn_result_authority message_issues mention_issues target_issues
    addressable_channels attachment_issues state_issues namespace_issues tool_pattern_covers
accepted = refl

abbrev refused_result : TurnResult
refused_result = record {
  run_id = "r1";
  public_messages = message ("writer" ∷ []) ∷ [];
  next_state = needs_human "mail.send";
  memory_proposals = [];
  artifacts = record { key = "draft"; visibility = private } ∷ [];
}

refused :
    check_turn_result_authority context mentions refused_result
    ≡ mention_not_targeted 0 "editor"
      ∷ addresses_itself (target_path 0 0) "writer"
      ∷ artifact_private 0 0 "draft"
      ∷ approval_not_allowed "mail.send"
      ∷ []
unfolding check_turn_result_authority message_issues mention_issues target_issues
    addressable_channels attachment_issues state_issues namespace_issues tool_pattern_covers
refused = refl

check_turn_result_authority_iff_example :
    (check_turn_result_authority context mentions accepted_result ≡ [])
    ↔ IsWithinAuthority context mentions accepted_result
check_turn_result_authority_iff_example =
    check_turn_result_authority_iff context mentions accepted_result
