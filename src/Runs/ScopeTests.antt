-- ===== src/Runs/ScopeTests.antt =====
-- A run that saw one thread reply, and a result that answers in the thread and waits for more.
use mathlib.Core.Path.{refl}
use agent_gateway_control.Prelude.{String, ◌≡◌, some, [], ◌∷◌, All}
use agent_gateway_control.Events.Types.{type_name, is_post_type}
use agent_gateway_control.Events.Envelope.{mattermost_post}
use agent_gateway_control.Waits.Sample.{posts, answer, question}
use agent_gateway_control.Runs.Scope.{
  TurnReach, ThreadRef, completion_scope, run_scope, run_scope_from, with_event, check_run_scope,
  thread_in_other_channel,
}
use agent_gateway_control.Runs.Reach.{IsReplyInRun, IsWaitInRun, check_run_scope_lem}

abbrev turn_in : String → TurnReach
turn_in channel = record {
  public_messages = record { channel_id = channel; root_post_id = some "p1" } ∷ [];
  waits = question.condition ∷ [];
}

in_scope : check_run_scope (turn_in "c1") (run_scope posts (answer ∷ [])) ≡ []
unfolding check_run_scope run_scope run_scope_from with_event mattermost_post is_post_type type_name
in_scope = refl

in_other_channel :
    check_run_scope (turn_in "c2") (run_scope posts (answer ∷ []))
    ≡ thread_in_other_channel 0 "p1" ∷ []
unfolding check_run_scope run_scope run_scope_from with_event mattermost_post is_post_type type_name
in_other_channel = refl

-- A run that a timeout resumed, in the thread of its context.
abbrev context_thread : ThreadRef
context_thread = record { channel_id = "c1"; root_post_id = "p1" }

abbrev correlation_in_store : ThreadRef → String
correlation_in_store thread = question.condition.correlation_id

resumed :
    check_run_scope
      (turn_in "c1")
      (completion_scope (some context_thread) correlation_in_store (run_scope posts []))
    ≡ []
unfolding check_run_scope run_scope run_scope_from completion_scope type_name
resumed = refl

check_run_scope_lem_example :
    All
      (IsReplyInRun posts [] (some context_thread) correlation_in_store)
      (turn_in "c1").public_messages
    × All (IsWaitInRun posts [] (some context_thread) correlation_in_store) (turn_in "c1").waits
check_run_scope_lem_example =
    check_run_scope_lem posts [] (some context_thread) correlation_in_store (turn_in "c1") resumed
