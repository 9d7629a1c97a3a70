-- ===== src/Runs/Deadline.antt =====
-- handleRunTimeout of packages/core/src/services/runs.ts, with its guards.
use agent_gateway_control.Prelude.{
  ℕ, ◌+◌, String, ◌≡◌, refl, sym, ◌⊎◌, inl, inr, Bool, true, false, ◌&&◌, ◌||◌, not, none, some,
  ltb, ◌==◌, is_some, includes, arith, Bool-cases, if◌then◌else◌, Result, ok,
}
use agent_gateway_control.Prelude.Table.{find_row}
use agent_gateway_control.Policy.Budget.{BudgetHold}
use agent_gateway_control.Policy.Ledger.{budget_hold_for}
use agent_gateway_control.Runs.Rows.{
  RunStatus, RunRow, AgentRow, RunDb, Job, is_queued, is_running, in_progress,
}
use agent_gateway_control.Runs.Failure.{ReportOutcome, ignored_stale, Thrown, apply_failure}
use agent_gateway_control.Runs.Frame.{find_run, find_agent, raise_alert-frame}
use agent_gateway_control.Runs.After.{IsBusy, Commits, Failed, Deferred, Retried}
use agent_gateway_control.Runs.Verdict.{Commits-imp, apply_failure_lem}
use agent_gateway_control.Runs.Backstops.{
  timeout_error, version_of, RunTimeoutJob, handle_run_timeout, lock_run, alert_queued,
}

-- The deadline check is due: its attempt is the current one, is running, and is past its deadline.
abbrev pub deadline_passed : ℕ → RunTimeoutJob → RunRow → Bool
deadline_passed now job run =
    is_running run.status && (run.attempt == job.attempt && not (ltb now run.timeout_at))

one_of :
    (again held : Bool) (F D R : Type 0)
    → (again ≡ false → F) × ((again ≡ true → held ≡ true → D) × (again ≡ true → held ≡ false → R))
    → F ⊎ (D ⊎ R)
one_of false held F D R h = inl (h.0 refl)
one_of true true F D R h = inr (inl (h.1.0 refl refl))
one_of true false F D R h = inr (inr (h.1.1 refl refl))

pub lock_run-known :
    {J : Type 0} (id : String) (db : RunDb J) (run : RunRow) (agent : AgentRow)
    → find_run id db ≡ some run
    → find_agent run.agent_id db ≡ some agent
    → lock_run id db ≡ some (run, agent)
unfolding lock_run
lock_run-known id db run agent e f = rw (e, lock_run, f, lock_run) refl

pub lock_run-unknown :
    {J : Type 0} (id : String) (db : RunDb J) (run : RunRow)
    → find_run id db ≡ some run
    → find_agent run.agent_id db ≡ none
    → lock_run id db ≡ none
unfolding lock_run
lock_run-unknown id db run e f = rw (e, lock_run, f, lock_run) refl

next_differs : (n : ℕ) → (n + 1 == n) ≡ false
next_differs n = ground arith

running-in_progress :
    (status : RunStatus) → (in_progress status && not (is_queued status)) ≡ is_running status
unfolding in_progress
running-in_progress RunStatus.queued = refl
running-in_progress RunStatus.running = refl
running-in_progress RunStatus.succeeded = refl
running-in_progress RunStatus.failed = refl
running-in_progress RunStatus.cancelled = refl

alert_queued-frame :
    {J : Type 0} (run : RunRow) (db : RunDb J)
    → ((alert_queued run db).runs ≡ db.runs)
      × (((alert_queued run db).agents ≡ db.agents) × ((alert_queued run db).inbox ≡ db.inbox))
unfolding alert_queued
alert_queued-frame run db =
    elim (Bool-cases (includes db.unavailable_runtimes run.runtime_adapter)) [
      | inl e ↦ rw e (refl, (refl, refl))
      | inr e ↦
          let kept =
            raise_alert-frame (record { topic = "queued"; subject = run.id; number = run.attempt })
              db in
          rw e (kept.0, (kept.1.0, kept.1.1.0))
    ]

-- The agent is busy, and the input of the run is stored.
abbrev pub IsReady : {J : Type 0} → RunRow → AgentRow → RunDb J → Type 0
IsReady run agent db =
    IsBusy agent.state × (is_some (find_row (λ s. s.run_id) run.id db.snapshots) ≡ true)

-- The guards of a deadline check: p the run in progress, m its attempt, q queued, l before its deadline.
module _ {J : Type 0} (stale alerted applied : Result Thrown (RunDb J × ReportOutcome))
    (P Q : RunDb J → ReportOutcome → Type 0) (Ready : Type 0) (settles : Ready → Commits applied P)
    (ignores : Commits stale Q) (alerts : Commits alerted Q) where
  guarded :
      (p m q l : Bool)
      → let handled =
          if not p || not m then stale else if q then alerted else if l then stale else applied in
        ((p && not q && (m && not l)) ≡ true → Ready → Commits handled P)
        × ((p && not q && (m && not l)) ≡ false → Commits handled Q)
  guarded false m q l = (λ t _. absurd (ground (arith, t)), λ t. ignores)
  guarded true false q l = (λ t _. absurd (ground (arith, t)), λ t. ignores)
  guarded true true true l = (λ t _. absurd (ground (arith, t)), λ t. alerts)
  guarded true true false true = (λ t _. absurd (ground (arith, t)), λ t. ignores)
  guarded true true false false = (λ _. settles, λ t. absurd (ground (arith, t)))

module _ {J : Type 0} (byte_size : J → ℕ → ℕ) (job_id_of : Job J → String)
    (redact : String → String) (reason_text : BudgetHold → String) where
  pub handle_run_timeout_lem :
      (now random : ℕ) (job : RunTimeoutJob) (run : RunRow) (agent : AgentRow) (db : RunDb J)
      → lock_run job.run_id db ≡ some (run, agent)
      → find_run run.id db ≡ some run
      → find_agent agent.id db ≡ some agent
      → let handled = handle_run_timeout byte_size job_id_of redact reason_text now random job db in
        (deadline_passed now job run ≡ true
          → IsReady run agent db
          → Commits handled (λ db' outcome.
            Failed db run agent db' outcome
            ⊎ (Deferred db run agent db' outcome ⊎ Retried db run agent db' outcome)))
        × (deadline_passed now job run ≡ false
            → Commits handled (λ db' outcome.
              (outcome ≡ ignored_stale)
              × ((db'.runs ≡ db.runs) × ((db'.agents ≡ db.agents) × (db'.inbox ≡ db.inbox)))))
  unfolding handle_run_timeout
  handle_run_timeout_lem now random job run agent db locked found_run found_agent =
      rw (sym (running-in_progress run.status), locked, handle_run_timeout)
        (guarded (ok (db, ignored_stale)) (ok (alert_queued run db, ignored_stale))
          (apply_failure byte_size job_id_of redact reason_text now random run agent timeout_error
            (version_of run.runtime_version) none db)
          _ _ (IsReady run agent db)
          (λ (busy, stored).
            Commits-imp _ _
              (apply_failure byte_size job_id_of redact reason_text now random run agent
                timeout_error (version_of run.runtime_version) none db)
              (λ db' outcome h.
                one_of (timeout_error.retryable && ltb run.attempt run.max_attempts)
                  (is_some (budget_hold_for now db.budgets db.ledger agent.id).0)
                  (Failed db run agent db' outcome) (Deferred db run agent db' outcome)
                  (Retried db run agent db' outcome) h)
              (apply_failure_lem byte_size job_id_of redact reason_text now random run agent
                timeout_error (version_of run.runtime_version) none db found_run found_agent busy
                stored))
          (refl, (refl, (refl, refl))) (refl, alert_queued-frame run db) (in_progress run.status)
          (run.attempt == job.attempt) (is_queued run.status) (ltb now run.timeout_at))
