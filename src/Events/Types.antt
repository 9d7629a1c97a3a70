-- ===== src/Events/Types.antt =====
-- Event types and trust labels (packages/contracts/src/event.ts, common.ts).
use agent_gateway_control.Prelude.{
  String, str_eq, starts_with, eq_iff, ◌≡◌, refl, ap, Bool, true, false, ◌||◌, Option, none, some,
  List, [], ◌∷◌, any, if◌then◌else◌,
}

pub data GatewayEventType : Type 0 where
  post_created post_edited post_deleted post_recovered agent_mentioned thread_reply :
      GatewayEventType
  run_requested run_started run_completed run_failed : GatewayEventType
  wait_created wait_matched wait_timeout message_requested message_posted : GatewayEventType
  approval_requested approval_granted approval_denied approval_resolved : GatewayEventType
  gmail_notification_received gmail_message_received timer_fired : GatewayEventType
  control_pause control_resume control_kill_all : GatewayEventType

unfoldable pub type_name : GatewayEventType → String
type_name post_created = "mattermost.post.created"
type_name post_edited = "mattermost.post.edited"
type_name post_deleted = "mattermost.post.deleted"
type_name post_recovered = "mattermost.post.recovered"
type_name agent_mentioned = "mattermost.agent.mentioned"
type_name thread_reply = "mattermost.thread.reply"
type_name run_requested = "agent.run.requested"
type_name run_started = "agent.run.started"
type_name run_completed = "agent.run.completed"
type_name run_failed = "agent.run.failed"
type_name wait_created = "agent.wait.created"
type_name wait_matched = "agent.wait.matched"
type_name wait_timeout = "agent.wait.timeout"
type_name message_requested = "agent.message.requested"
type_name message_posted = "agent.message.posted"
type_name approval_requested = "approval.requested"
type_name approval_granted = "approval.granted"
type_name approval_denied = "approval.denied"
type_name approval_resolved = "approval.resolved"
type_name gmail_notification_received = "google.gmail.notification.received"
type_name gmail_message_received = "google.gmail.message.received"
type_name timer_fired = "timer.fired"
type_name control_pause = "gateway.control.pause"
type_name control_resume = "gateway.control.resume"
type_name control_kill_all = "gateway.control.kill_all"

-- `===` on event types
unfoldable pub same_type : GatewayEventType → GatewayEventType → Bool
unfolding type_name
same_type a b = str_eq (type_name a) (type_name b)

unfoldable pub type_starts_with : GatewayEventType → String → Bool
unfolding type_name
type_starts_with t prefix = starts_with (type_name t) prefix

-- Only the Gateway itself emits these.
unfoldable pub is_reserved_event_type : GatewayEventType → Bool
unfolding type_starts_with same_type
is_reserved_event_type t =
    type_starts_with t "agent."
    || type_starts_with t "approval."
    || type_starts_with t "gateway.control."
    || same_type t timer_fired

-- Stored for the record, never routed.
unfoldable pub is_record_only_event_type : GatewayEventType → Bool
unfolding same_type
is_record_only_event_type t =
    same_type t post_edited
    || same_type t post_deleted
    || same_type t post_recovered
    || same_type t gmail_notification_received

-- MATTERMOST_POST_EVENT_TYPES
abbrev pub mattermost_post_event_types : List GatewayEventType
mattermost_post_event_types =
    post_created ∷ post_edited ∷ post_deleted ∷ post_recovered ∷ agent_mentioned ∷ thread_reply ∷ []

unfoldable pub is_post_type : GatewayEventType → Bool
unfolding same_type
is_post_type t = any (λ p. same_type p t) mattermost_post_event_types

pub data TrustLevel : Type 0 where
  system_trusted human_trusted internal_untrusted external_untrusted : TrustLevel

abbrev pub is_system_trusted : TrustLevel → Bool
is_system_trusted system_trusted = true
is_system_trusted _ = false

abbrev pub is_human_trusted : TrustLevel → Bool
is_human_trusted human_trusted = true
is_human_trusted _ = false

-- The type that a name spells: the enum of GatewayEventTypeSchema.
type_of_name : String → List GatewayEventType → Option GatewayEventType
unfolding type_name
type_of_name s [] = none
type_of_name s (t ∷ ts) = if str_eq (type_name t) s then some t else type_of_name s ts

abbrev all_types : List GatewayEventType
all_types =
    post_created ∷ post_edited ∷ post_deleted ∷ post_recovered ∷ agent_mentioned ∷ thread_reply
    ∷ run_requested ∷ run_started ∷ run_completed ∷ run_failed ∷ wait_created ∷ wait_matched
    ∷ wait_timeout ∷ message_requested ∷ message_posted ∷ approval_requested ∷ approval_granted
    ∷ approval_denied ∷ approval_resolved ∷ gmail_notification_received ∷ gmail_message_received
    ∷ timer_fired ∷ control_pause ∷ control_resume ∷ control_kill_all ∷ []

type_of_name-type_name : (t : GatewayEventType) → type_of_name (type_name t) all_types ≡ some t
unfolding type_of_name
type_of_name-type_name post_created = refl
type_of_name-type_name _ = refl

pub same_type-eq : (a b : GatewayEventType) → same_type a b ≡ true → a ≡ b
unfolding same_type
same_type-eq a b h =
    cc
      (type_of_name-type_name a, type_of_name-type_name b, (eq_iff (type_name a) (type_name b)).0 h)

pub same_type_of_eq : (a b : GatewayEventType) → a ≡ b → same_type a b ≡ true
unfolding same_type
same_type_of_eq a b e = (eq_iff (type_name a) (type_name b)).1 (ap type_name e)
