-- ===== src/Waits/Answers.antt =====
-- What it means that an event answers a wait, stated without the order of the tests.
use agent_gateway_control.Prelude.{
  ℕ, ◌<◌, String, str_eq, eq_iff, ◌≡◌, ◌≢◌, ◌↔◌, ◌⊎◌, true, false, Option, none, some, List,
  includes, arith, inl, inr, Option-cases, Bool-cases, refl, ap, leb, ◌&&◌, not,
}
use agent_gateway_control.Events.Types.{
  human_trusted, same_type, same_type-eq, same_type_of_eq, is_reserved_event_type,
  approval_resolved,
}
use agent_gateway_control.Events.Envelope.{
  MattermostPostData, Schemas, GatewayEvent, is_gateway_emitted, mattermost_post,
}
use agent_gateway_control.Waits.Matching.{
  ActiveWait, names_sender, is_id, in_thread, reaches, or_else, is_resolution, sender_matches,
  post_matches, wait_matches,
}

is_id_ne : (o : Option String) (s : String) → o ≢ some s → is_id o s ≡ false
is_id_ne none s h = refl
is_id_ne (some x) s h = elim (Bool-cases (str_eq x s)) [
  | inl e ↦ absurd (h (ap some ((eq_iff x s).0 e)))
  | inr e ↦ e
]

in_thread_of :
    (o : Option (List String)) (root : String)
    → ((roots : List String) → o ≡ some roots → includes roots root ≡ true)
    → in_thread o root ≡ true
in_thread_of none root h = refl
in_thread_of (some roots) root h = h roots refl

reaches_of :
    (o : Option String) (targets : List String)
    → ((target : String) → o ≡ some target → includes targets target ≡ true)
    → reaches o targets ≡ true
reaches_of none targets h = refl
reaches_of (some target) targets h = h target refl

module _ {J : Type 0} (wait : ActiveWait) (event : GatewayEvent J) where
  -- The sender is one of the agents that the wait names, or a human at their own account that it
  -- names.
  abbrev pub IsExpectedSender : MattermostPostData → Type 0
  IsExpectedSender post =
      ((a : String) × (post.sender_agent_id ≡ some a)
        × (includes wait.condition.expected_sender_agent_ids a ≡ true))
      ⊎ ((event.trustlevel ≡ human_trusted)
          × (includes wait.condition.expected_sender_user_ids post.user_id ≡ true))

  abbrev pub IsAnswer : Option MattermostPostData → Type 0
  IsAnswer none =
      (names_sender wait.condition ≡ false) × (wait.condition.require_target_agent_id ≡ none)
  IsAnswer (some post) =
      (post.sender_agent_id ≢ some wait.agent_id)
      × ((roots : List String)
          → wait.thread_root_ids ≡ some roots
          → includes roots (or_else post.root_id post.post_id) ≡ true)
      × (names_sender wait.condition ≡ true → IsExpectedSender post)
      × ((target : String)
          → wait.condition.require_target_agent_id ≡ some target
          → includes post.target_agent_ids target ≡ true)

  sender_matches-IsExpectedSender :
      (post : MattermostPostData)
      → sender_matches wait.condition event post ≡ true
      → IsExpectedSender post
  unfolding sender_matches
  sender_matches-IsExpectedSender post h = elim (Option-cases post.sender_agent_id) [
    | inl e ↦ inr (ground arith)
    | inr (a, e) ↦ elim (Bool-cases (includes wait.condition.expected_sender_agent_ids a)) [
      | inl t ↦ inl (a, e, t)
      | inr f ↦ inr (ground arith)
    ]
  ]

  IsExpectedSender-sender_matches :
      (post : MattermostPostData)
      → IsExpectedSender post
      → sender_matches wait.condition event post ≡ true
  unfolding sender_matches
  IsExpectedSender-sender_matches post (inl (a, e, t)) = ground arith
  IsExpectedSender-sender_matches post (inr (e, t)) = ground arith

  post_matches-IsAnswer :
      (post : Option MattermostPostData) → post_matches wait event post ≡ true → IsAnswer post
  unfolding post_matches
  post_matches-IsAnswer none h = ground arith
  post_matches-IsAnswer (some post) h = (
    λ e. ground (arith, eq_iff wait.agent_id wait.agent_id),
    λ roots e. ground arith,
    λ n. sender_matches-IsExpectedSender post (ground arith),
    λ target e. ground arith,
  )

  IsAnswer-post_matches :
      (post : Option MattermostPostData) → IsAnswer post → post_matches wait event post ≡ true
  unfolding post_matches
  IsAnswer-post_matches none h = ground arith
  IsAnswer-post_matches (some post) (others, threads, senders, targets) = ground (
    arith,
    is_id_ne post.sender_agent_id wait.agent_id others,
    in_thread_of wait.thread_root_ids (or_else post.root_id post.post_id) threads,
    λ (n : names_sender wait.condition ≡ true). IsExpectedSender-sender_matches post (senders n),
    reaches_of wait.condition.require_target_agent_id post.target_agent_ids targets,
  )

resolution_or_early :
    {J : Type 0} (event : GatewayEvent J) (now timeout : ℕ)
    → (now < timeout) ⊎ ((event.type ≡ approval_resolved) × (is_gateway_emitted event ≡ true))
    → leb timeout now && not (same_type event.type approval_resolved && is_gateway_emitted event)
      ≡ false
resolution_or_early event now timeout (inl early) = ground arith
resolution_or_early event now timeout (inr (type, emitted)) =
    ground (arith, same_type_of_eq event.type approval_resolved type)

module _ {J : Type 0} (schemas : Schemas J) where
  abbrev pub Answers : ActiveWait → GatewayEvent J → ℕ → Type 0
  Answers wait event now =
      (event.type ≡ wait.condition.event_type)
      × (event.correlationid ≡ wait.condition.correlation_id)
      × ((now < wait.timeout_at)
          ⊎ ((event.type ≡ approval_resolved) × (is_gateway_emitted event ≡ true)))
      × (is_reserved_event_type event.type ≡ true → is_gateway_emitted event ≡ true)
      × IsAnswer wait event (mattermost_post schemas event)

  -- An event matches a wait exactly when it has the type and the correlation that the wait asks for,
  -- comes before the timeout or is the Gateway's own word on how an approval ended, is no forged
  -- event of a type that only the Gateway emits, and is a post from an expected sender other than the
  -- waiting agent itself, in the thread and to the agent that the wait asks for (or, where it is no
  -- post, the wait asks for no sender and no target).
  pub wait_matches_iff :
      (wait : ActiveWait) (event : GatewayEvent J) (now : ℕ)
      → (wait_matches schemas wait event now ≡ true) ↔ Answers wait event now
  unfolding wait_matches is_resolution
  wait_matches_iff wait event now = (
    λ h. (
      same_type-eq event.type wait.condition.event_type (ground arith),
      (eq_iff event.correlationid wait.condition.correlation_id).0 (ground arith),
      elim (Bool-cases (leb wait.timeout_at now)) [
        | inl late ↦ inr (same_type-eq event.type approval_resolved (ground arith), ground arith)
        | inr early ↦ inl (ground arith)
      ],
      λ r. ground arith,
      post_matches-IsAnswer wait event (mattermost_post schemas event) (ground arith),
    ),
    λ (type, correlation, time, genuine, answer). ground (
      arith,
      same_type_of_eq event.type wait.condition.event_type type,
      (eq_iff event.correlationid wait.condition.correlation_id).1 correlation,
      resolution_or_early event now wait.timeout_at time,
      genuine,
      IsAnswer-post_matches wait event (mattermost_post schemas event) answer,
    ),
  )
