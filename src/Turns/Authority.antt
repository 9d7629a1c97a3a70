-- ===== src/Turns/Authority.antt =====
-- checkTurnResultAuthority of packages/contracts/src/turn-authority.ts as a whole.
use agent_gateway_control.Prelude.{
  ℕ, String, str_eq, eq_iff, true, List, [], ◌≡◌, ◌↔◌, includes, All,
}
use agent_gateway_control.Turns.Result.{TurnResult, TurnAuthorityContext, other_run}
use agent_gateway_control.Turns.Check.{unless, namespace_issues, check_turn_result_authority}
use agent_gateway_control.Turns.Each.{unless-nil_iff, for_each-nil_iff, append_iff}
use agent_gateway_control.Turns.Within.{IsStateAllowed, state_issues-nil_iff}
use agent_gateway_control.Turns.Messages.{IsMessageAllowed, message_issues-nil_iff}

module _ (context : TurnAuthorityContext) where
  namespace_issues-nil_iff :
      (i : ℕ) (namespace : String)
      → (namespace_issues context i namespace ≡ [])
        ↔ (includes context.writable_memory_namespaces namespace ≡ true)
  unfolding namespace_issues
  namespace_issues-nil_iff i namespace = unless-nil_iff _ _

  own_run-nil_iff :
      (result : TurnResult)
      → (unless (str_eq result.run_id context.run_id) (other_run result.run_id) ≡ [])
        ↔ (result.run_id ≡ context.run_id)
  own_run-nil_iff result =
      let u = unless-nil_iff (str_eq result.run_id context.run_id) (other_run result.run_id) in
      let q = eq_iff result.run_id context.run_id in (λ h. q.0 (u.0 h), λ h. u.1 (q.1 h))

  module _ (mentioned_names : String → List String) where
    -- Every effect of the result is one that its run may have.
    abbrev pub IsWithinAuthority : TurnResult → Type 0
    IsWithinAuthority result =
        (result.run_id ≡ context.run_id)
        × (All (IsMessageAllowed context mentioned_names result.artifacts) result.public_messages
            × (IsStateAllowed context result.next_state
                × All (λ namespace. includes context.writable_memory_namespaces namespace ≡ true)
                    result.memory_proposals))

    -- A result has no authority issue exactly when it is of the run, every message may be posted there
    -- by this agent, mentions only agents that it targets, targets only other agents that it may address
    -- and that are members of the channel, and attaches only produced artifacts that are not private and
    -- existing ones that it may attach; its waits expect only agents that it may address and users that
    -- it may wait for, and messages to itself; the approval it asks for is one that its policy asks an
    -- approval for and does not deny; and its memory goes to namespaces that it may write.
    pub check_turn_result_authority_iff :
        (result : TurnResult)
        → (check_turn_result_authority context mentioned_names result ≡ [])
          ↔ IsWithinAuthority result
    unfolding check_turn_result_authority
    check_turn_result_authority_iff result = append_iff _ _ (own_run-nil_iff result) (
        append_iff _ _
          (for_each-nil_iff _ _ (message_issues-nil_iff context mentioned_names result.artifacts) 0
            result.public_messages)
          (append_iff _ _ (state_issues-nil_iff context result.next_state)
            (for_each-nil_iff _ _ namespace_issues-nil_iff 0 result.memory_proposals)))
