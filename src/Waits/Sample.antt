-- ===== src/Waits/Sample.antt =====
-- A wait on a thread reply, and an answer to it, for the tests. Here `data` is the post itself.
use agent_gateway_control.Prelude.{none, some, [], ◌∷◌}
use agent_gateway_control.Events.Types.{thread_reply, human_trusted}
use agent_gateway_control.Events.Envelope.{MattermostPostData, Schemas, GatewayEvent}
use agent_gateway_control.Waits.Matching.{ActiveWait}

abbrev pub posts : Schemas MattermostPostData
posts = record { parse_post = λ p. some p; parse_wait_timeout = λ p. none }

abbrev pub reply : MattermostPostData
reply = record {
  post_id = "p2";
  root_id = some "p1";
  channel_id = "c1";
  user_id = "u1";
  sender_agent_id = none;
  target_agent_ids = "developer" ∷ [];
  message = "yes";
}

abbrev pub answer : GatewayEvent MattermostPostData
answer = record {
  id = "mattermost:post:p2";
  source = "mattermost://test";
  type = thread_reply;
  time = 5000;
  subject = none;
  correlationid = "thread:p1";
  causationid = none;
  traceparent = none;
  trustlevel = human_trusted;
  hop = 0;
  payload = reply;
}

abbrev pub question : ActiveWait
question = record {
  id = "w1";
  agent_id = "developer";
  condition = record {
    event_type = thread_reply;
    correlation_id = "thread:p1";
    expected_sender_agent_ids = [];
    expected_sender_user_ids = "u1" ∷ [];
    require_target_agent_id = none;
    timeout_at = 90000;
  };
  timeout_at = 90000;
  thread_root_ids = some ("p1" ∷ []);
}
