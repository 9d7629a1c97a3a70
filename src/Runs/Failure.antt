-- ===== src/Runs/Failure.antt =====
-- A failed attempt of a run (applyFailure and deferForBudget of packages/core/src/services/runs.ts) and
-- the backstops that fail one: handleRunTimeout and failLostAttempt. `redact` is the redaction of error
-- texts, `byte_size` the size of a stored input with its deadline, `job_id_of` the id that the queue
-- gives a job, and `reason_text` the text of a hold's reason with its formatted numbers. A thrown error undoes the whole transaction.
use Prim.Native.String.{◌++◌ as str_append}
use agent_gateway_control.Prelude.{
  ℕ, ◌+◌, ◌-◌, ◌*◌, ◌/◌, ◌^◌, String, str_eq, Bool, false, ◌&&◌, Option, none, some, List, [], ◌∷◌,
  min, max, ltb, Result, ok, err, ◌>>=◌, if◌then◌else◌,
}
use agent_gateway_control.Prelude.Table.{update_where, find_row}
use agent_gateway_control.Agents.StateMachine.{
  AgentState, retry, complete_idle, fail, InvalidTransitionError, require_transition,
}
use agent_gateway_control.Policy.Budget.{RuntimeUsage, BudgetHold}
use agent_gateway_control.Policy.Ledger.{budget_hold_for}
use agent_gateway_control.Runs.Rows.{
  RunStatus, RunRow, AgentRow, InboxStatus, InboxRow, Job, Alert, RunDb, is_claimed,
}
use agent_gateway_control.Runs.Store.{
  audit, raise_alert, set_agent_state, update_run, enqueue_attempt,
}

pub record RunError : Type 0 where
  pub code : String
  pub retryable : Bool
  pub detail : String

pub data ReportOutcome : Type 0 where
  retry_scheduled deferred run_failed ignored_stale : ReportOutcome

pub data Thrown : Type 0 where
  invalid_transition : InvalidTransitionError → Thrown
  no_context_snapshot : String → Thrown

-- The random number is given in parts of 2 ^ 53, the grain of the language's own.
unfoldable pub random_grain : ℕ
random_grain = 2 ^ 53

-- `Math.round(base * (0.5 + random() / 2))`, at least 1
unfoldable pub run_retry_delay_seconds : ℕ → ℕ → ℕ
unfolding random_grain
run_retry_delay_seconds attempt random =
    let base = min 300 (5 * 2 ^ (attempt - 1)) in
    max 1 ((base * (random_grain + random) + random_grain) / (2 * random_grain))

-- The transition's error becomes the transaction's.
abbrev pub moved : Result InvalidTransitionError AgentState → Result Thrown AgentState
moved (ok to) = ok to
moved (err e) = err (invalid_transition e)

unfoldable pub failed_run : ℕ → String → String → String → Option RuntimeUsage → RunRow → RunRow
failed_run now code detail runtime_version usage run = record run {
  status = RunStatus.failed;
  finished_at = some now;
  error_code = some code;
  error_detail = some detail;
  runtime_version = some runtime_version;
  usage = usage;
}

unfoldable pub deferred_run : ℕ → String → String → String → Option RuntimeUsage → RunRow → RunRow
deferred_run now code detail runtime_version usage run = record run {
  status = RunStatus.cancelled;
  finished_at = some now;
  error_code = some code;
  error_detail = some detail;
  runtime_version = some runtime_version;
  usage = usage;
}

unfoldable pub retried_run :
    ℕ → ℕ → String → String → String → Option RuntimeUsage → RunRow → RunRow
retried_run attempt deadline code detail runtime_version usage run = record run {
  status = RunStatus.queued;
  attempt = attempt;
  started_at = none;
  timeout_at = deadline;
  error_code = some code;
  error_detail = some detail;
  runtime_version = some runtime_version;
  usage = usage;
}

abbrev pub of_run : String → Option String → Bool
of_run run_id none = false
of_run run_id (some id) = str_eq id run_id

-- The entries that the run claimed and has not consumed.
unfoldable pub claimed_by : String → InboxRow → Bool
claimed_by run_id entry = of_run run_id entry.run_id && is_claimed entry.status

unfoldable pub given_back_entry : InboxRow → InboxRow
given_back_entry entry = record entry { status = InboxStatus.pending; run_id = none }

-- The alert of a hold, for everyone or for one agent.
abbrev pub hold_alert : Option String × ℕ → Alert
hold_alert (none, day) = record { topic = "budget"; subject = "global"; number = day }
hold_alert (some agent_id, day) = record {
  topic = "budget";
  subject = str_append "agent:" agent_id;
  number = day;
}

module _ {J : Type 0} where
  abbrev pub raise_holds : List (Option String × ℕ) → RunDb J → RunDb J
  raise_holds [] db = db
  raise_holds (a ∷ rest) db = raise_holds rest (raise_alert (hold_alert a) db)

  -- The run's events go back to the inbox; the agent is idle meanwhile.
  unfoldable pub defer_for_budget :
      ℕ
      → RunRow
      → AgentRow
      → String
      → String
      → String
      → Option RuntimeUsage
      → RunDb J
      → Result Thrown (RunDb J × ReportOutcome)
  defer_for_budget now run agent code detail runtime_version usage db =
      moved (require_transition agent.id agent.state complete_idle) >>= (λ to.
        let ended = update_run run.id (deferred_run now code detail runtime_version usage) db in
        let returned : RunDb J = record ended {
          inbox = update_where (claimed_by run.id) given_back_entry ended.inbox;
        } in
        ok (
          audit now "run.deferred" run.id (set_agent_state now agent.id agent.state to returned),
          deferred,
        ))

  unfoldable pub fail_run :
      ℕ
      → RunRow
      → AgentRow
      → String
      → String
      → String
      → Option RuntimeUsage
      → RunDb J
      → Result Thrown (RunDb J × ReportOutcome)
  fail_run now run agent code detail runtime_version usage db =
      moved (require_transition agent.id agent.state fail) >>= (λ to.
        let ended = update_run run.id (failed_run now code detail runtime_version usage) db in
        ok (
          audit now "run.failed" run.id (
              raise_alert (record { topic = "run-failed"; subject = run.id; number = 0 })
                (set_agent_state now agent.id agent.state to ended)),
          run_failed,
        ))

module _ {J : Type 0} (byte_size : J → ℕ → ℕ) (job_id_of : Job J → String) where
  unfoldable pub retry_run :
      ℕ
      → ℕ
      → RunRow
      → AgentRow
      → String
      → String
      → String
      → Option RuntimeUsage
      → RunDb J
      → Result Thrown (RunDb J × ReportOutcome)
  retry_run now random run agent code detail runtime_version usage db =
      let attempt = run.attempt + 1 in
      let start_after = now + run_retry_delay_seconds run.attempt random * 1000 in
      let deadline = start_after + run.timeout_seconds * 1000 in
      elim (find_row (λ s. s.run_id) run.id db.snapshots) [
        | none ↦ err (no_context_snapshot run.id)
        | some snapshot ↦ moved (require_transition agent.id agent.state retry) >>= (λ to.
            let stored : RunDb J = record db {
              snapshots =
                  update_where (λ s. str_eq s.run_id run.id)
                    (λ s. record s {
                      deadline = deadline;
                      size_bytes = byte_size snapshot.input deadline;
                    })
                    db.snapshots;
            } in
            let queued =
              update_run run.id (retried_run attempt deadline code detail runtime_version usage)
                stored in
            ok (
              audit now "run.retry" run.id (
                  enqueue_attempt job_id_of run.id attempt run.runtime_adapter run.timeout_seconds
                    snapshot.input deadline start_after
                    (set_agent_state now agent.id agent.state to queued)),
              retry_scheduled,
            ))
      ]

  module _ (redact : String → String) (reason_text : BudgetHold → String) where
    unfoldable pub apply_failure :
        ℕ
        → ℕ
        → RunRow
        → AgentRow
        → RunError
        → String
        → Option RuntimeUsage
        → RunDb J
        → Result Thrown (RunDb J × ReportOutcome)
    apply_failure now random run agent error runtime_version usage db =
        if error.retryable && ltb run.attempt run.max_attempts
        then (let (hold, alerts) = budget_hold_for now db.budgets db.ledger agent.id in
            elim hold [
              | some h ↦
                  defer_for_budget now run agent error.code
                    (redact
                      (str_append error.detail (str_append "; retry deferred: " (reason_text h))))
                    runtime_version usage (raise_holds alerts db)
              | none ↦
                  retry_run now random run agent error.code (redact error.detail) runtime_version
                    usage db
            ])
        else fail_run now run agent error.code (redact error.detail) runtime_version usage db
