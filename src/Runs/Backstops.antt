-- ===== src/Runs/Backstops.antt =====
-- The backstops of runs.ts that fail an attempt nobody reported: handleRunTimeout and failLostAttempt.
use agent_gateway_control.Prelude.{
  ℕ, String, str_eq, Bool, true, false, ◌&&◌, ◌||◌, not, Option, none, some, ltb, ◌==◌, includes,
  Result, ok, if◌then◌else◌,
}
use agent_gateway_control.Prelude.Table.{find_row}
use agent_gateway_control.Policy.Budget.{BudgetHold}
use agent_gateway_control.Runs.Rows.{
  RunRow, AgentRow, Job, RunDb, is_queued, is_running, in_progress,
}
use agent_gateway_control.Runs.Store.{raise_alert}
use agent_gateway_control.Runs.Failure.{
  RunError, ReportOutcome, ignored_stale, Thrown, apply_failure,
}

pub record RunTimeoutJob : Type 0 where
  pub run_id : String
  pub attempt : ℕ

-- The attempt that the probe of the queue saw.
pub record ObservedAttempt : Type 0 where
  pub run_id : String
  pub job_id : Option String
  pub running : Bool
  pub attempt : ℕ

-- `run.runtimeVersion ?? "unknown"`
abbrev pub version_of : Option String → String
version_of none = "unknown"
version_of (some version) = version

abbrev pub same_job : Option String → Option String → Bool
same_job none none = true
same_job (some a) (some b) = str_eq a b
same_job _ _ = false

abbrev pub timeout_error : RunError
timeout_error = record {
  code = "timeout";
  retryable = true;
  detail = "no report before the run deadline; the worker may have stopped";
}

abbrev pub lost_error : String → RunError
lost_error detail = record { code = "runtime_retryable"; retryable = true; detail = detail }

module _ {J : Type 0} where
  -- The run and its agent.
  unfoldable pub lock_run : String → RunDb J → Option (RunRow × AgentRow)
  lock_run run_id db = elim (find_row (λ r. r.id) run_id db.runs) [
    | none ↦ none
    | some run ↦ elim (find_row (λ a. a.id) run.agent_id db.agents) [
      | none ↦ none
      | some agent ↦ some (run, agent)
    ]
  ]

  -- An attempt that no worker has started: an alert, unless its runtime is known to be down.
  unfoldable pub alert_queued : RunRow → RunDb J → RunDb J
  alert_queued run db =
      if includes db.unavailable_runtimes run.runtime_adapter
      then db
      else raise_alert (record { topic = "queued"; subject = run.id; number = run.attempt }) db

module _ {J : Type 0} (byte_size : J → ℕ → ℕ) (job_id_of : Job J → String)
    (redact : String → String) (reason_text : BudgetHold → String) where
  unfoldable pub handle_run_timeout :
      ℕ → ℕ → RunTimeoutJob → RunDb J → Result Thrown (RunDb J × ReportOutcome)
  unfolding alert_queued
  handle_run_timeout now random job db = elim (lock_run job.run_id db) [
    | none ↦ ok (db, ignored_stale)
    | some (run, agent) ↦
        if not (in_progress run.status) || not (run.attempt == job.attempt)
        then ok (db, ignored_stale)
        else if is_queued run.status
        then ok (alert_queued run db, ignored_stale)
        else if ltb now run.timeout_at
        then ok (db, ignored_stale)
        else apply_failure byte_size job_id_of redact reason_text now random run agent timeout_error
            (version_of run.runtime_version) none db
  ]

  unfoldable pub fail_lost_attempt :
      ℕ → ℕ → ObservedAttempt → String → RunDb J → Result Thrown (RunDb J × ReportOutcome)
  fail_lost_attempt now random observed detail db = elim (lock_run observed.run_id db) [
    | none ↦ ok (db, ignored_stale)
    | some (run, agent) ↦
        if not (same_job run.job_id observed.job_id)
          || (not (if observed.running then is_running run.status else is_queued run.status)
              || (not (run.attempt == observed.attempt)
                  || (is_running run.status && ltb now run.timeout_at)))
        then ok (db, ignored_stale)
        else apply_failure byte_size job_id_of redact reason_text now random run agent
            (lost_error detail) (version_of run.runtime_version) none db
  ]
