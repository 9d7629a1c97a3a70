-- ===== src/Runs/Tests.antt =====
-- One run of one agent, whose first attempt is past its deadline.
use mathlib.Core.Path.{refl}
use agent_gateway_control.Prelude.{
  ℕ, ◌*◌, ◌-◌, ◌^◌, ◌≤◌, ◌<◌, String, ◌≡◌, inr, true, none, some, [], ◌∷◌, min, arith, Result, ok,
  err,
}
use agent_gateway_control.Agents.StateMachine.{AgentState, require_transition, next_agent_state}
use agent_gateway_control.Policy.Budget.{BudgetHold, budget_hold}
use agent_gateway_control.Policy.Ledger.{budget_hold_for}
use agent_gateway_control.Runs.Rows.{
  RunStatus, RunRow, AgentRow, InboxStatus, RunDb, Job, in_progress,
}
use agent_gateway_control.Runs.Failure.{
  RunError, ReportOutcome, Thrown, ignored_stale, retry_scheduled, apply_failure, retry_run,
  retried_run, run_retry_delay_seconds, random_grain,
}
use agent_gateway_control.Runs.Backstops.{
  RunTimeoutJob, timeout_error, lock_run, handle_run_timeout,
}
use agent_gateway_control.Runs.Redelivery.{IsLater, handle_run_timeout-once}
use agent_gateway_control.Runs.Store.{audit, set_agent_state, enqueue_attempt}
use agent_gateway_control.Runs.Frame.{find_run}
use agent_gateway_control.Runs.Delay.{run_retry_delay_seconds_lem}

abbrev late_run : RunRow
late_run = record {
  id = "run-1";
  agent_id = "cto";
  status = RunStatus.running;
  attempt = 1;
  max_attempts = 3;
  runtime_adapter = "codex";
  runtime_version = none;
  started_at = some 1000;
  finished_at = none;
  timeout_at = 61000;
  timeout_seconds = 60;
  error_code = none;
  error_detail = none;
  usage = none;
  job_id = some "job-1";
}

abbrev worker : AgentRow
worker = record { id = "cto"; state = AgentState.running; enabled = true; state_changed_at = 1000 }

abbrev db_of : RunRow → AgentRow → RunDb ℕ
db_of run agent = record {
  runs = run ∷ [];
  agents = agent ∷ [];
  inbox =
      record {
        id = "entry-1";
        agent_id = "cto";
        status = InboxStatus.claimed;
        run_id = some "run-1";
      }
      ∷ [];
  snapshots = record { run_id = "run-1"; input = 7; deadline = 61000; size_bytes = 40 } ∷ [];
  ledger = [];
  budgets = none;
  unavailable_runtimes = [];
  alerts = [];
  audit_log = [];
  jobs = [];
}

abbrev late : RunDb ℕ
late = db_of late_run worker

abbrev size : ℕ → ℕ → ℕ
size input deadline = 40

abbrev job_name : Job ℕ → String
job_name job = "job-2"

abbrev same_text : String → String
same_text text = text

abbrev held_text : BudgetHold → String
held_text hold = "over budget"

abbrev lost_worker : RunError
lost_worker = record { code = "runtime_retryable"; retryable = true; detail = "worker lost" }

abbrev first_check : RunTimeoutJob
first_check = record { run_id = "run-1"; attempt = 1 }

locked : lock_run "run-1" late ≡ some (late_run, worker)
unfolding lock_run
locked = refl

-- The retry of the late run, and the same check again, when a worker runs the next attempt.
abbrev committed : Result Thrown (RunDb ℕ × ReportOutcome) → RunDb ℕ
committed (ok (db, outcome)) = db
committed (err e) = late

abbrev after_check : RunDb ℕ
after_check =
    committed (handle_run_timeout size job_name same_text held_text 70000 5 first_check late)

abbrev next_run : RunRow
next_run = record late_run {
  status = RunStatus.queued;
  attempt = 2;
  started_at = none;
  timeout_at = 133000;
  runtime_version = some "unknown";
  error_code = some "timeout";
  error_detail = some timeout_error.detail;
  job_id = some "job-2";
}

abbrev running_again : RunRow
running_again = record next_run { status = RunStatus.running; started_at = some 80000 }

check_retries :
    handle_run_timeout size job_name same_text held_text 70000 5 first_check late
    ≡ ok (after_check, retry_scheduled)
unfolding handle_run_timeout lock_run in_progress apply_failure budget_hold_for budget_hold
    retry_run run_retry_delay_seconds require_transition next_agent_state
check_retries = refl

next_found : find_run "run-1" after_check ≡ some next_run
unfolding handle_run_timeout lock_run in_progress apply_failure budget_hold_for budget_hold
    retry_run run_retry_delay_seconds require_transition next_agent_state audit enqueue_attempt
    set_agent_state retried_run random_grain
next_found = refl

next_IsLater : IsLater next_run running_again
unfolding in_progress
next_IsLater = record { attempt = omega arith; over = λ e. absurd (ground (arith, e)) }

handle_run_timeout-once_example :
    handle_run_timeout size job_name same_text held_text 200000 7 first_check
      (db_of running_again worker)
    ≡ ok (db_of running_again worker, ignored_stale)
handle_run_timeout-once_example =
    handle_run_timeout-once size job_name same_text held_text 70000 5 200000 7 late_run worker late
      after_check (db_of running_again worker) retry_scheduled next_run running_again locked refl
      refl (inr refl, refl) refl check_retries next_found refl next_IsLater

small_random : 5 < random_grain
unfolding random_grain
small_random = omega arith

run_retry_delay_seconds_lem_example :
    let base = min 300 (5 * 2 ^ (3 - 1)) in
    let delay = run_retry_delay_seconds 3 5 in
    (1 ≤ delay) × ((delay ≤ base) × ((base ≤ 2 * delay) × (delay ≤ 300)))
run_retry_delay_seconds_lem_example = run_retry_delay_seconds_lem 3 5 small_random
