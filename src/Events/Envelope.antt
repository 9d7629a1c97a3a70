-- ===== src/Events/Envelope.antt =====
-- The envelope and what is read from it (packages/events/src/envelope.ts). `J` stands for the JSON
-- objects of `data`; how a schema reads them is the schema library's, and a parameter here. Times
-- are milliseconds, and the field `data` is named `payload`.
use agent_gateway_control.Prelude.{
  ℕ, String, str_eq, Bool, ◌&&◌, Option, none, some, List, [], ◌∷◌, if◌then◌else◌,
}
use agent_gateway_control.Events.Types.{
  GatewayEventType, TrustLevel, is_post_type, is_system_trusted, thread_reply, agent_mentioned,
  post_created,
}

pub record MattermostPostData : Type 0 where
  pub post_id : String
  pub root_id : Option String
  pub channel_id : String
  pub user_id : String
  pub sender_agent_id : Option String
  pub target_agent_ids : List String
  pub message : String

pub record WaitTimeoutData : Type 0 where
  pub agent_id : String
  pub wait_id : String

-- `safeParse` of MattermostPostDataSchema and WaitTimeoutDataSchema.
pub record Schemas (J : Type 0) : Type 0 where
  pub parse_post : J → Option MattermostPostData
  pub parse_wait_timeout : J → Option WaitTimeoutData

pub record GatewayEvent (J : Type 0) : Type 0 where
  pub id : String
  pub source : String
  pub type : GatewayEventType
  pub time : ℕ
  pub subject : Option String
  pub correlationid : String
  pub causationid : Option String
  pub traceparent : Option String
  pub trustlevel : TrustLevel
  pub hop : ℕ
  pub payload : J

abbrev pub gateway_source : String
gateway_source = "gateway://controller"

module _ {J : Type 0} where
  unfoldable pub is_gateway_emitted : GatewayEvent J → Bool
  is_gateway_emitted event =
      str_eq event.source gateway_source && is_system_trusted event.trustlevel

  -- An event emitted by the Gateway itself.
  unfoldable pub internal_event :
      String
      → GatewayEventType
      → ℕ
      → Option String
      → String
      → Option String
      → ℕ
      → J
      → Option String
      → GatewayEvent J
  internal_event id type time subject correlationid causationid hop payload traceparent = record {
    id = id;
    source = gateway_source;
    type = type;
    time = time;
    subject = subject;
    correlationid = correlationid;
    causationid = causationid;
    traceparent = traceparent;
    trustlevel = TrustLevel.system_trusted;
    hop = hop;
    payload = payload;
  }

-- The type of a new post: a thread reply, else a post that addresses agents, else a plain post.
unfoldable pub new_post_event_type : Option String → List String → GatewayEventType
new_post_event_type (some root) targets = thread_reply
new_post_event_type none (t ∷ ts) = agent_mentioned
new_post_event_type none [] = post_created

-- `mattermostPost(event)?.target_agent_ids ?? []`, and so for the sender
abbrev pub targets_of : Option MattermostPostData → List String
targets_of none = []
targets_of (some post) = post.target_agent_ids

abbrev pub sender_of : Option MattermostPostData → Option String
sender_of none = none
sender_of (some post) = post.sender_agent_id

module _ {J : Type 0} (schemas : Schemas J) where
  unfoldable pub mattermost_post : GatewayEvent J → Option MattermostPostData
  mattermost_post event = if is_post_type event.type then schemas.parse_post event.payload else none

  unfoldable pub event_targets : GatewayEvent J → List String
  event_targets event = targets_of (mattermost_post event)

  unfoldable pub event_sender_agent_id : GatewayEvent J → Option String
  event_sender_agent_id event = sender_of (mattermost_post event)
