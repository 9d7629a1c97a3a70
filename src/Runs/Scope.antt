-- ===== src/Runs/Scope.antt =====
-- What a run may reply to and wait on: runScope and checkRunScope of packages/core/src/outcome.ts, and
-- completionScope of packages/core/src/services/runs.ts. The reference of the context's thread is
-- taken as parsed, and `correlation_of` is the store's query for the thread's correlation. A Set
-- is the list of its members and a Map the list of its entries, each in the order of insertion.
use agent_gateway_control.Prelude.{
  ℕ, ◌+◌, String, str_eq, starts_with, Option, none, some, List, [], ◌∷◌, ◌++◌, max, includes,
  is_some, if◌then◌else◌,
}
use agent_gateway_control.Prelude.Maps.{lookup}
use agent_gateway_control.Events.Types.{type_name}
use agent_gateway_control.Events.Envelope.{
  GatewayEvent, MattermostPostData, Schemas, mattermost_post,
}
use agent_gateway_control.Waits.Matching.{WaitCondition, or_else}

pub record ThreadScope : Type 0 where
  pub channel_id : String
  pub correlation_id : String

pub record RunScope : Type 0 where
  pub correlation_ids : List String
  pub thread_roots : List (String × ThreadScope)
  pub max_hop : ℕ

-- Set.prototype.add
abbrev pub add_id : String → List String → List String
add_id id ids = if includes ids id then ids else ids ++ id ∷ []

-- Map.prototype.set
abbrev pub put : String → ThreadScope → List (String × ThreadScope) → List (String × ThreadScope)
put k v [] = (k, v) ∷ []
put k v ((j, w) ∷ m) = let rest = put k v m in if str_eq j k then (j, v) ∷ m else (j, w) ∷ rest

abbrev pub put_post :
    Option MattermostPostData → String → List (String × ThreadScope) → List (String × ThreadScope)
put_post none correlation roots = roots
put_post (some post) correlation roots =
    put (or_else post.root_id post.post_id)
      (record { channel_id = post.channel_id; correlation_id = correlation }) roots

-- The parts of a turn's result that reach into conversations.
pub record PublicMessage : Type 0 where
  pub channel_id : String
  pub root_post_id : Option String

pub record TurnReach : Type 0 where
  pub public_messages : List PublicMessage
  -- the waits of the next state `waiting`, and else none
  pub waits : List WaitCondition

pub data OutcomeIssue : Type 0 where
  thread_not_in_run : ℕ → String → OutcomeIssue
  thread_in_other_channel : ℕ → String → OutcomeIssue
  approval_wait : ℕ → OutcomeIssue
  correlation_not_in_run : ℕ → String → OutcomeIssue

module _ {J : Type 0} (schemas : Schemas J) where
  unfoldable pub with_event : GatewayEvent J → RunScope → RunScope
  with_event event scope = record {
    correlation_ids = add_id event.correlationid scope.correlation_ids;
    thread_roots = put_post (mattermost_post schemas event) event.correlationid scope.thread_roots;
    max_hop = max scope.max_hop event.hop;
  }

  unfoldable pub run_scope_from : List (GatewayEvent J) → RunScope → RunScope
  run_scope_from [] scope = scope
  run_scope_from (event ∷ events) scope = run_scope_from events (with_event event scope)

  unfoldable pub run_scope : List (GatewayEvent J) → RunScope
  run_scope events =
      run_scope_from events (record { correlation_ids = []; thread_roots = []; max_hop = 0 })

-- The thread that a run's context was assembled from, parsed from the text of its reference.
pub record ThreadRef : Type 0 where
  pub channel_id : String
  pub root_post_id : String

-- completionScope: the context's thread is in scope too, with the correlation that the store has for it,
-- unless one of the run's own events is of the thread.
unfoldable pub completion_scope : Option ThreadRef → (ThreadRef → String) → RunScope → RunScope
completion_scope none correlation_of scope = scope
completion_scope (some ref) correlation_of scope =
    if is_some (lookup ref.root_post_id scope.thread_roots) then scope else record {
      correlation_ids = add_id (correlation_of ref) scope.correlation_ids;
      thread_roots =
          put ref.root_post_id
            (record { channel_id = ref.channel_id; correlation_id = correlation_of ref })
            scope.thread_roots;
      max_hop = scope.max_hop;
    }

abbrev pub thread_issues : ℕ → String → String → Option ThreadScope → List OutcomeIssue
thread_issues i root channel none = thread_not_in_run i root ∷ []
thread_issues i root channel (some thread) =
    if str_eq thread.channel_id channel then [] else thread_in_other_channel i root ∷ []

abbrev pub message_issues : RunScope → ℕ → String → Option String → List OutcomeIssue
message_issues scope i channel none = []
message_issues scope i channel (some root) =
    thread_issues i root channel (lookup root scope.thread_roots)

abbrev pub wait_issues : RunScope → ℕ → WaitCondition → List OutcomeIssue
wait_issues scope i wait =
    (if starts_with (type_name wait.event_type) "approval." then approval_wait i ∷ [] else [])
    ++ (if includes scope.correlation_ids wait.correlation_id
        then []
        else correlation_not_in_run i wait.correlation_id ∷ [])

abbrev pub messages_from : RunScope → ℕ → List PublicMessage → List OutcomeIssue
messages_from scope i [] = []
messages_from scope i (m ∷ ms) =
    message_issues scope i m.channel_id m.root_post_id ++ messages_from scope (i + 1) ms

abbrev pub waits_from : RunScope → ℕ → List WaitCondition → List OutcomeIssue
waits_from scope i [] = []
waits_from scope i (w ∷ ws) = wait_issues scope i w ++ waits_from scope (i + 1) ws

unfoldable pub check_run_scope : TurnReach → RunScope → List OutcomeIssue
check_run_scope result scope =
    messages_from scope 0 result.public_messages ++ waits_from scope 0 result.waits
