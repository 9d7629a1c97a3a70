-- ===== src/Waits/Store.antt =====
-- The rows of `wait_subscriptions` (packages/db/src/schema.ts) and what consumes them: resolveWait and
-- cancelActiveWaits of packages/core/src/services/wait-store.ts, with insertWait of runs.ts and
-- extendApprovalWait of approval-store.ts. A job of the queue is not part of the table: the ids that
-- extend_approval_wait gives back are those of the jobs that it sends.
use Prim.Native.String.{◌++◌ as str_append}
use agent_gateway_control.Prelude.{
  ℕ, String, str_eq, Bool, true, false, ◌&&◌, not, Option, none, some, List, [], ◌∷◌, ◌++◌, map,
  if◌then◌else◌,
}
use agent_gateway_control.Prelude.Table.{update_where, returning, first_row}

pub data WaitStatus : Type 0 where
  active matched timed_out cancelled : WaitStatus

-- The condition of a wait is in Waits/Matching.
pub record WaitRow : Type 0 where
  pub id : String
  pub agent_id : String
  pub created_by_run_id : String
  pub status : WaitStatus
  pub correlation_id : String
  pub timeout_at : ℕ
  pub matched_event_id : Option String
  pub resolved_at : Option ℕ

abbrev pub is_active : WaitStatus → Bool
is_active active = true
is_active _ = false

-- An event or a timeout consumed the wait.
abbrev pub is_resolved : WaitStatus → Bool
is_resolved matched = true
is_resolved timed_out = true
is_resolved _ = false

abbrev pub resolution : Bool → WaitStatus
resolution timed = if timed then timed_out else matched

abbrev pub resolved_row : ℕ → String → Bool → WaitRow → WaitRow
resolved_row now event_id timed wait = record wait {
  status = resolution timed;
  matched_event_id = some event_id;
  resolved_at = some now;
}

abbrev pub cancelled_row : ℕ → WaitRow → WaitRow
cancelled_row now wait = record wait { status = cancelled; resolved_at = some now }

abbrev pub is_open : String → WaitRow → Bool
is_open wait_id wait = str_eq wait.id wait_id && is_active wait.status

abbrev pub is_sibling : String → String → WaitRow → Bool
is_sibling run_id wait_id wait =
    str_eq wait.created_by_run_id run_id && is_active wait.status && not (str_eq wait.id wait_id)

-- The siblings of a consumed wait are cancelled.
abbrev pub cancel_siblings : Option WaitRow → ℕ → String → List WaitRow → List WaitRow × Bool
cancel_siblings none now wait_id waits = (waits, false)
cancel_siblings (some wait) now wait_id waits =
    (update_where (is_sibling wait.created_by_run_id wait_id) (cancelled_row now) waits, true)

-- Whether this event resolved the wait.
unfoldable pub resolve_wait : ℕ → String → String → Bool → List WaitRow → List WaitRow × Bool
resolve_wait now wait_id event_id timed waits =
    cancel_siblings
      (first_row (returning (is_open wait_id) (resolved_row now event_id timed) waits)) now wait_id
      (update_where (is_open wait_id) (resolved_row now event_id timed) waits)

abbrev pub is_open_of : String → WaitRow → Bool
is_open_of agent_id wait = str_eq wait.agent_id agent_id && is_active wait.status

unfoldable pub cancel_active_waits : ℕ → String → List WaitRow → List WaitRow × List String
cancel_active_waits now agent_id waits = (
  update_where (is_open_of agent_id) (cancelled_row now) waits,
  map (λ wait. wait.correlation_id) (returning (is_open_of agent_id) (cancelled_row now) waits),
)

abbrev pub extended_row : ℕ → WaitRow → WaitRow
extended_row until wait = record wait { timeout_at = until }

abbrev pub is_open_about : String → WaitRow → Bool
is_open_about correlation_id wait =
    str_eq wait.correlation_id correlation_id && is_active wait.status

abbrev pub approval_correlation : String → String
approval_correlation approval_id = str_append "approval:" approval_id

unfoldable pub extend_approval_wait : String → ℕ → List WaitRow → List WaitRow × List String
extend_approval_wait approval_id until waits = (
  update_where (is_open_about (approval_correlation approval_id)) (extended_row until) waits,
  map (λ wait. wait.id)
      (returning (is_open_about (approval_correlation approval_id)) (extended_row until) waits),
)

-- The row of a new wait, with the id that the database gives it.
abbrev pub new_wait : String → String → String → String → ℕ → WaitRow
new_wait id run_id agent_id correlation_id timeout_at = record {
  id = id;
  agent_id = agent_id;
  created_by_run_id = run_id;
  status = active;
  correlation_id = correlation_id;
  timeout_at = timeout_at;
  matched_event_id = none;
  resolved_at = none;
}

unfoldable pub insert_wait : String → String → String → String → ℕ → List WaitRow → List WaitRow
insert_wait id run_id agent_id correlation_id timeout_at waits =
    waits ++ new_wait id run_id agent_id correlation_id timeout_at ∷ []
