-- ===== src/Runs/Verdict.antt =====
-- applyFailure of packages/core/src/services/runs.ts as a whole.
use Prim.Native.String.{◌++◌ as str_append}
use agent_gateway_control.Prelude.{
  ℕ, String, ◌≡◌, ap, ◌∙◌, inl, inr, true, false, ◌&&◌, Option, some, ltb, is_some, arith,
  Bool-cases, Option-cases, Result, ok, err,
}
use agent_gateway_control.Prelude.Table.{find_row}
use agent_gateway_control.Policy.Budget.{RuntimeUsage, BudgetHold}
use agent_gateway_control.Policy.Ledger.{budget_hold_for}
use agent_gateway_control.Runs.Rows.{RunRow, AgentRow, RunDb, Job}
use agent_gateway_control.Runs.Failure.{
  RunError, ReportOutcome, Thrown, raise_holds, defer_for_budget, fail_run, retry_run,
  apply_failure,
}
use agent_gateway_control.Runs.Frame.{find_run, find_agent}
use agent_gateway_control.Runs.After.{
  IsBusy, Commits, Failed, Deferred, Retried, raise_holds-frame, raise_holds-Deferred,
}
use agent_gateway_control.Runs.Settles.{
  fail_run-Failed, defer_for_budget-Deferred, retry_run-Retried,
}

pub Commits-imp :
    {J : Type 0} (P Q : RunDb J → ReportOutcome → Type 0)
    (r : Result Thrown (RunDb J × ReportOutcome))
    → ((db : RunDb J) (outcome : ReportOutcome) → P db outcome → Q db outcome)
    → Commits r P
    → Commits r Q
Commits-imp P Q (ok (db, outcome)) f h = f db outcome h
Commits-imp P Q (err e) f h = h

module _ {J : Type 0} (byte_size : J → ℕ → ℕ) (job_id_of : Job J → String)
    (redact : String → String) (reason_text : BudgetHold → String) where
  pub apply_failure_lem :
      (now random : ℕ) (run : RunRow) (agent : AgentRow) (error : RunError) (version : String)
      (usage : Option RuntimeUsage) (db : RunDb J)
      → find_run run.id db ≡ some run
      → find_agent agent.id db ≡ some agent
      → IsBusy agent.state
      → is_some (find_row (λ s. s.run_id) run.id db.snapshots) ≡ true
      → let again = error.retryable && ltb run.attempt run.max_attempts in
        let held = is_some (budget_hold_for now db.budgets db.ledger agent.id).0 in
        Commits
          (apply_failure byte_size job_id_of redact reason_text now random run agent error version
            usage db)
          (λ db' outcome.
            (again ≡ false → Failed db run agent db' outcome)
            × ((again ≡ true → held ≡ true → Deferred db run agent db' outcome)
                × (again ≡ true → held ≡ false → Retried db run agent db' outcome)))
  unfolding apply_failure
  apply_failure_lem now random run agent error version usage db found_run found_agent busy stored =
      elim (Bool-cases (error.retryable && ltb run.attempt run.max_attempts)) [
        | inr e ↦
            rw (e, apply_failure)
              (Commits-imp (Failed db run agent) _
                (fail_run now run agent error.code (redact error.detail) version usage db)
                (λ db' outcome h.
                  (λ _. h, (λ t. absurd (ground (arith, t)), λ t. absurd (ground (arith, t)))))
                (fail_run-Failed now run agent error.code (redact error.detail) version usage db
                  found_run found_agent busy))
        | inl e ↦
            let verdict = budget_hold_for now db.budgets db.ledger agent.id in
            elim (Option-cases verdict.0) [
              | inl none_held ↦
                  rw (e, apply_failure, none_held)
                    (Commits-imp (Retried db run agent) _
                      (retry_run byte_size job_id_of now random run agent error.code
                        (redact error.detail) version usage db)
                      (λ db' outcome h. (
                        λ t. absurd (ground (arith, t)),
                        (λ _ t. absurd (ground (arith, t)), λ _ _. h),
                      ))
                      (retry_run-Retried now run agent error.code (redact error.detail) version
                        usage db found_run found_agent busy byte_size job_id_of random stored))
              | inr hold ↦
                  let detail = redact (
                    str_append error.detail
                      (str_append "; retry deferred: " (reason_text hold.0))) in
                  let alerted = raise_holds verdict.1 db in
                  let kept = raise_holds-frame verdict.1 db in
                  rw (e, apply_failure, hold.1)
                    (Commits-imp (Deferred alerted run agent) _
                      (defer_for_budget now run agent error.code detail version usage alerted)
                      (λ db' outcome h. (
                        λ t. absurd (ground (arith, t)),
                        (
                          λ _ _. raise_holds-Deferred verdict.1 db run agent db' outcome h,
                          λ _ t. absurd (ground (arith, t)),
                        ),
                      ))
                      (defer_for_budget-Deferred now run agent error.code detail version usage
                        alerted (ap (find_row (λ r. r.id) run.id) kept.0 ∙ found_run)
                        (ap (find_row (λ a. a.id) agent.id) kept.1 ∙ found_agent) busy))
            ]
      ]
