-- ===== src/Turns/Within.antt =====
-- The checks of the parts of a result (packages/contracts/src/turn-authority.ts).
use mathlib.Core.Option.{some-injective}
use mathlib.Core.Path.{subst}
use agent_gateway_control.Prelude.{
  ℕ, String, str_eq, eq_iff, true, false, Option, none, some, List, [], ◌≡◌, ◌≢◌, ◌↔◌, refl, sym,
  ◌∙◌, inl, inr, Bool-cases, includes, All, arith,
}
use agent_gateway_control.Prelude.Maps.{lookup}
use agent_gateway_control.Policy.Patterns.{covers}
use agent_gateway_control.Waits.Matching.{WaitCondition}
use agent_gateway_control.Turns.Result.{
  Visibility, private, ArtifactRef, Artifact, NextState, idle, failed, waiting, needs_human,
  TurnAuthorityContext, AddressPath, TurnAuthorityIssue,
}
use agent_gateway_control.Turns.Check.{
  produced, with_channels, addressable_channels, sender_issues, user_issues, own_target_issues,
  wait_issues, state_issues,
}
use agent_gateway_control.Turns.Each.{unless-nil_iff, for_each-nil_iff, append_iff}

module _ (context : TurnAuthorityContext) where
  -- Another agent, which this agent may address.
  abbrev pub MayAddress : String → (List String → Type 0) → Type 0
  MayAddress agent P =
      (agent ≢ context.agent_id)
      × ((channels : List String) × (lookup agent context.addressable_agents ≡ some channels)
          × P channels)

  -- A produced artifact that is not private, and an existing one that the agent may attach.
  abbrev pub IsAttachable : List Artifact → ArtifactRef → Type 0
  IsAttachable artifacts attachment =
      ((key : String)
        → attachment.artifact_key ≡ some key
        → (v : Visibility) × (produced artifacts key ≡ some v) × (v ≢ private))
      × ((id : String)
          → attachment.artifact_id ≡ some id
          → includes context.attachable_artifact_ids id ≡ true)

  abbrev pub IsWaitAllowed : WaitCondition → Type 0
  IsWaitAllowed wait =
      All (λ sender. MayAddress sender (λ channels. Unit)) wait.expected_sender_agent_ids
      × (All (λ user. includes context.waitable_user_ids user ≡ true) wait.expected_sender_user_ids
          × ((agent : String)
              → wait.require_target_agent_id ≡ some agent
              → agent ≡ context.agent_id))

  abbrev pub IsStateAllowed : NextState → Type 0
  IsStateAllowed idle = Unit
  IsStateAllowed failed = Unit
  IsStateAllowed (waiting waits) = All IsWaitAllowed waits
  IsStateAllowed (needs_human action_type) =
      (covers context.tool_policy.deny action_type ≡ false)
      × (covers context.tool_policy.require_human_approval action_type ≡ true)

  with_channels-nil_iff :
      (path : AddressPath) (agent : String) (o : Option (List String))
      (rest : List String → List TurnAuthorityIssue) (P : List String → Type 0)
      → ((channels : List String) → (rest channels ≡ []) ↔ P channels)
      → (with_channels context path agent o rest ≡ [])
        ↔ ((channels : List String) × (o ≡ some channels) × P channels)
  with_channels-nil_iff path agent none rest P f =
      (λ h. absurd (ground (arith, h)), λ h. absurd (ground (arith, h.1)))
  with_channels-nil_iff path agent (some channels) rest P f = (
    λ h. (channels, refl, (f channels).0 h),
    λ h. (f channels).1 (subst P (sym (some-injective channels h.0 h.1)) h.2),
  )

  pub addressable_channels-nil_iff :
      (path : AddressPath) (agent : String) (rest : List String → List TurnAuthorityIssue)
      (P : List String → Type 0)
      → ((channels : List String) → (rest channels ≡ []) ↔ P channels)
      → (addressable_channels context path agent rest ≡ []) ↔ MayAddress agent P
  unfolding addressable_channels
  addressable_channels-nil_iff path agent rest P f =
      elim (Bool-cases (str_eq agent context.agent_id)) [
        | inl e ↦ rw e (
          λ h. absurd (ground (arith, h)),
          λ h. absurd (h.0 ((eq_iff agent context.agent_id).0 e)),
        )
        | inr e ↦
            let w =
              with_channels-nil_iff path agent (lookup agent context.addressable_agents) rest P f in
            rw e (
              λ h. (
                λ same. absurd (ground (arith, e, (eq_iff agent context.agent_id).1 same)),
                w.0 h,
              ),
              λ h. w.1 h.1,
            )
      ]

  sender_issues-nil_iff :
      (i j : ℕ) (sender : String)
      → (sender_issues context i j sender ≡ []) ↔ MayAddress sender (λ channels. Unit)
  unfolding sender_issues
  sender_issues-nil_iff i j sender =
      addressable_channels-nil_iff _ sender (λ channels. []) (λ channels. Unit)
        (λ channels. (λ h. tt, λ h. refl))

  user_issues-nil_iff :
      (i j : ℕ) (user : String)
      → (user_issues context i j user ≡ []) ↔ (includes context.waitable_user_ids user ≡ true)
  unfolding user_issues
  user_issues-nil_iff i j user = unless-nil_iff _ _

  own_target-nil_iff :
      (i : ℕ) (o : Option String)
      → (own_target_issues context i o ≡ [])
        ↔ ((agent : String) → o ≡ some agent → agent ≡ context.agent_id)
  own_target-nil_iff i none = (λ h agent e. absurd (ground (arith, e)), λ h. refl)
  own_target-nil_iff i (some agent) =
      let u = unless-nil_iff (str_eq agent context.agent_id) _ in
      let q = eq_iff agent context.agent_id in
      (λ h other e. sym (some-injective agent other e) ∙ q.0 (u.0 h), λ h. u.1 (q.1 (h agent refl)))

  wait_issues-nil_iff :
      (i : ℕ) (wait : WaitCondition) → (wait_issues context i wait ≡ []) ↔ IsWaitAllowed wait
  unfolding wait_issues
  wait_issues-nil_iff i wait =
      append_iff _ _
        (for_each-nil_iff _ _ (sender_issues-nil_iff i) 0 wait.expected_sender_agent_ids)
        (append_iff _ _
          (for_each-nil_iff _ _ (user_issues-nil_iff i) 0 wait.expected_sender_user_ids)
          (own_target-nil_iff i wait.require_target_agent_id))

  pub state_issues-nil_iff :
      (state : NextState) → (state_issues context state ≡ []) ↔ IsStateAllowed state
  unfolding state_issues
  state_issues-nil_iff idle = (λ h. tt, λ h. refl)
  state_issues-nil_iff failed = (λ h. tt, λ h. refl)
  state_issues-nil_iff (waiting waits) = for_each-nil_iff _ _ wait_issues-nil_iff 0 waits
  state_issues-nil_iff (needs_human action_type) = ground arith
