-- ===== src/Turns/Messages.antt =====
-- The checks of one message (packages/contracts/src/turn-authority.ts).
use mathlib.Core.Option.{some-injective}
use mathlib.Core.Path.{subst}
use agent_gateway_control.Prelude.{
  ℕ, String, true, Option, none, some, List, [], ◌∷◌, ◌≡◌, ◌≢◌, ◌↔◌, refl, sym, ◌⊎◌, inl, inr,
  includes, All, arith,
}
use agent_gateway_control.Turns.Result.{
  Visibility, private, shared, public, ArtifactRef, TurnMessage, Artifact, TurnAuthorityContext,
}
use agent_gateway_control.Turns.Check.{
  may_post, is_known, produced, mention_issues, target_issues, produced_issues, key_issues,
  id_issues, attachment_issues, message_issues,
}
use agent_gateway_control.Turns.Each.{unless-nil_iff, for_each-nil_iff, append_iff}
use agent_gateway_control.Turns.Within.{MayAddress, IsAttachable, addressable_channels-nil_iff}

not_private : (v : Visibility) → (v ≢ private) → (v ≡ shared) ⊎ (v ≡ public)
not_private private h = absurd (h refl)
not_private shared h = inl refl
not_private public h = inr refl

shared-not_private : shared ≢ private
shared-not_private e = ground (arith, e)

public-not_private : public ≢ private
public-not_private e = ground (arith, e)

module _ (context : TurnAuthorityContext) where
  produced_issues-nil_iff :
      (i j : ℕ) (key : String) (o : Option Visibility)
      → (produced_issues context i j key o ≡ []) ↔ ((v : Visibility) × (o ≡ some v) × (v ≢ private))
  produced_issues-nil_iff i j key none =
      (λ h. absurd (ground (arith, h)), λ h. absurd (ground (arith, h.1)))
  produced_issues-nil_iff i j key (some private) =
      (λ h. absurd (ground (arith, h)), λ h. absurd (h.2 (sym (some-injective private h.0 h.1))))
  produced_issues-nil_iff i j key (some shared) =
      (λ h. (shared, refl, shared-not_private), λ h. refl)
  produced_issues-nil_iff i j key (some public) =
      (λ h. (public, refl, public-not_private), λ h. refl)

  key_issues-nil_iff :
      (i j : ℕ) (artifacts : List Artifact) (o : Option String)
      → (key_issues context i j artifacts o ≡ []) ↔ (
          (key : String)
          → o ≡ some key
          → (v : Visibility) × (produced artifacts key ≡ some v) × (v ≢ private))
  key_issues-nil_iff i j artifacts none = (λ h key e. absurd (ground (arith, e)), λ h. refl)
  key_issues-nil_iff i j artifacts (some key) =
      let p = produced_issues-nil_iff i j key (produced artifacts key) in
      (
        λ h other e.
            subst (λ k. (v : Visibility) × (produced artifacts k ≡ some v) × (v ≢ private))
              (some-injective key other e) (p.0 h),
        λ h. p.1 (h key refl),
      )

  id_issues-nil_iff :
      (i j : ℕ) (o : Option String)
      → (id_issues context i j o ≡ [])
        ↔ ((id : String) → o ≡ some id → includes context.attachable_artifact_ids id ≡ true)
  id_issues-nil_iff i j none = (λ h id e. absurd (ground (arith, e)), λ h. refl)
  id_issues-nil_iff i j (some id) =
      let u = unless-nil_iff (includes context.attachable_artifact_ids id) _ in
      (
        λ h other e.
            subst (λ k. includes context.attachable_artifact_ids k ≡ true)
              (some-injective id other e) (u.0 h),
        λ h. u.1 (h id refl),
      )

  attachment_issues-nil_iff :
      (artifacts : List Artifact) (i j : ℕ) (attachment : ArtifactRef)
      → (attachment_issues context i artifacts j attachment ≡ [])
        ↔ IsAttachable context artifacts attachment
  unfolding attachment_issues
  attachment_issues-nil_iff artifacts i j attachment =
      append_iff _ _ (key_issues-nil_iff i j artifacts attachment.artifact_key)
        (id_issues-nil_iff i j attachment.artifact_id)

  -- Every agent that the text mentions is a target of the message.
  abbrev pub MentionsTargeted : List String → TurnMessage → Type 0
  MentionsTargeted names message =
      All (λ name. is_known context name ≡ true → includes message.target_agent_ids name ≡ true)
        names

  mention_issues-nil_iff :
      (i : ℕ) (message : TurnMessage) (names : List String)
      → (mention_issues context i message names ≡ []) ↔ MentionsTargeted names message
  unfolding mention_issues
  mention_issues-nil_iff i message [] = (λ h. tt, λ h. refl)
  mention_issues-nil_iff i message (name ∷ names) =
      append_iff _ _ (ground arith) (mention_issues-nil_iff i message names)

  target_issues-nil_iff :
      (message : TurnMessage) (i j : ℕ) (target : String)
      → (target_issues context i message j target ≡ [])
        ↔ MayAddress context target (λ channels. includes channels message.channel_id ≡ true)
  unfolding target_issues
  target_issues-nil_iff message i j target =
      addressable_channels-nil_iff context _ target _
        (λ channels. includes channels message.channel_id ≡ true)
        (λ channels. unless-nil_iff (includes channels message.channel_id) _)

  module _ (mentioned_names : String → List String) where
    abbrev pub IsMessageAllowed : List Artifact → TurnMessage → Type 0
    IsMessageAllowed artifacts message =
        (may_post context ≡ true)
        × ((includes context.allowed_channel_ids message.channel_id ≡ true)
            × (MentionsTargeted (mentioned_names message.markdown) message
                × (All
                      (λ target.
                        MayAddress context target
                          (λ channels. includes channels message.channel_id ≡ true))
                      message.target_agent_ids
                    × All (IsAttachable context artifacts) message.attachments)))

    pub message_issues-nil_iff :
        (artifacts : List Artifact) (i : ℕ) (message : TurnMessage)
        → (message_issues context mentioned_names artifacts i message ≡ [])
          ↔ IsMessageAllowed artifacts message
    unfolding message_issues
    message_issues-nil_iff artifacts i message = append_iff _ _ (unless-nil_iff _ _) (
        append_iff _ _ (unless-nil_iff _ _) (
          append_iff _ _ (mention_issues-nil_iff i message (mentioned_names message.markdown)) (
            append_iff _ _
              (for_each-nil_iff _ _ (target_issues-nil_iff message i) 0 message.target_agent_ids)
              (for_each-nil_iff _ _ (attachment_issues-nil_iff artifacts i) 0
                message.attachments))))
