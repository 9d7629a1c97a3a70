-- ===== src/Waits/Matching.antt =====
-- waitMatches of packages/core/src/waits.ts.
use agent_gateway_control.Prelude.{
  ℕ, String, str_eq, Bool, true, false, ◌&&◌, ◌||◌, not, Option, none, some, List, [], ◌∷◌,
  includes, leb, is_none, if◌then◌else◌,
}
use agent_gateway_control.Events.Types.{
  GatewayEventType, same_type, is_reserved_event_type, approval_resolved, thread_reply,
  is_human_trusted,
}
use agent_gateway_control.Events.Envelope.{
  MattermostPostData, Schemas, GatewayEvent, is_gateway_emitted, mattermost_post,
}

pub record WaitCondition : Type 0 where
  pub event_type : GatewayEventType
  pub correlation_id : String
  pub expected_sender_agent_ids : List String
  pub expected_sender_user_ids : List String
  pub require_target_agent_id : Option String
  pub timeout_at : ℕ

-- A wait as the router sees it; `timeout_at` is the clamped timeout.
pub record ActiveWait : Type 0 where
  pub id : String
  pub agent_id : String
  pub condition : WaitCondition
  pub timeout_at : ℕ
  pub thread_root_ids : Option (List String)

-- Waits on replies are bound to the threads they were asked in.
unfoldable pub is_thread_bound : WaitCondition → Bool
is_thread_bound condition = same_type condition.event_type thread_reply

abbrev pub is_empty : List String → Bool
is_empty [] = true
is_empty (x ∷ xs) = false

abbrev pub names_sender : WaitCondition → Bool
names_sender c =
    not (is_empty c.expected_sender_agent_ids) || not (is_empty c.expected_sender_user_ids)

-- `x === y` and `xs.includes(x)` where x may be null
abbrev pub is_id : Option String → String → Bool
is_id none s = false
is_id (some x) s = str_eq x s

abbrev pub includes_opt : List String → Option String → Bool
includes_opt xs none = false
includes_opt xs (some x) = includes xs x

-- `??`
abbrev pub or_else : Option String → String → String
or_else none s = s
or_else (some x) s = x

-- `set !== null && !set.has(x)`, the other way round
abbrev pub in_thread : Option (List String) → String → Bool
in_thread none root = true
in_thread (some roots) root = includes roots root

-- `target === null || targets.includes(target)`
abbrev pub reaches : Option String → List String → Bool
reaches none targets = true
reaches (some target) targets = includes targets target

module _ {J : Type 0} where
  unfoldable pub is_resolution : GatewayEvent J → Bool
  is_resolution event = same_type event.type approval_resolved && is_gateway_emitted event

  unfoldable pub sender_matches : WaitCondition → GatewayEvent J → MattermostPostData → Bool
  sender_matches condition event post =
      includes_opt condition.expected_sender_agent_ids post.sender_agent_id
      || (is_human_trusted event.trustlevel
          && includes condition.expected_sender_user_ids post.user_id)

  -- The part of the test that reads the post, from `const post` on.
  unfoldable pub post_matches : ActiveWait → GatewayEvent J → Option MattermostPostData → Bool
  unfolding sender_matches
  post_matches wait event none =
      not (names_sender wait.condition) && is_none wait.condition.require_target_agent_id
  post_matches wait event (some post) =
      if is_id post.sender_agent_id wait.agent_id
      then false
      else if not (in_thread wait.thread_root_ids (or_else post.root_id post.post_id))
      then false
      else if names_sender wait.condition && not (sender_matches wait.condition event post)
      then false
      else reaches wait.condition.require_target_agent_id post.target_agent_ids

  unfoldable pub wait_matches : Schemas J → ActiveWait → GatewayEvent J → ℕ → Bool
  unfolding is_resolution post_matches
  wait_matches schemas wait event now =
      if not (same_type event.type wait.condition.event_type)
        || not (str_eq event.correlationid wait.condition.correlation_id)
      then false
      else if leb wait.timeout_at now && not (is_resolution event)
      then false
      else if is_reserved_event_type event.type && not (is_gateway_emitted event)
      then false
      else post_matches wait event (mattermost_post schemas event)
