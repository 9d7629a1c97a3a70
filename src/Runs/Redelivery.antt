-- ===== src/Runs/Redelivery.antt =====
-- A deadline check that comes twice: handleRunTimeout of packages/core/src/services/runs.ts.
use mathlib.Core.Path.{subst}
use mathlib.Core.Option.{some-injective}
use agent_gateway_control.Prelude.{
  ℕ, ◌+◌, ◌≤◌, String, ◌≡◌, refl, sym, ap, ◌∙◌, ◌⊎◌, inl, inr, true, false, ◌&&◌, ◌||◌, not, some,
  ◌==◌, arith, Option-cases, ok,
}
use agent_gateway_control.Policy.Budget.{BudgetHold}
use agent_gateway_control.Runs.Rows.{RunStatus, RunRow, AgentRow, RunDb, Job, in_progress}
use agent_gateway_control.Runs.Failure.{ReportOutcome, ignored_stale}
use agent_gateway_control.Runs.Frame.{find_run, find_agent}
use agent_gateway_control.Runs.After.{RunIs, Commits, Failed, Deferred, Retried}
use agent_gateway_control.Runs.Backstops.{RunTimeoutJob, handle_run_timeout, lock_run}
use agent_gateway_control.Runs.Deadline.{
  deadline_passed, lock_run-known, lock_run-unknown, IsReady, handle_run_timeout_lem,
}

same_row :
    {J : Type 0} (id : String) (db : RunDb J) (r : RunRow) (status : RunStatus) (attempt : ℕ)
    → find_run id db ≡ some r
    → RunIs db id status attempt
    → (r.status ≡ status) × (r.attempt ≡ attempt)
same_row id db r status attempt f (q, (found, (st, at))) =
    let same = some-injective r q (sym f ∙ found) in
    (ap (λ x. x.status) same ∙ st, ap (λ x. x.attempt) same ∙ at)

-- A later row of the run: attempts never fall, and a run that is over stays so.
pub record IsLater (r r' : RunRow) : Type 0 where
  pub attempt : r.attempt ≤ r'.attempt
  pub over : in_progress r.status ≡ false → in_progress r'.status ≡ false

settled_before :
    {J : Type 0} (before db : RunDb J) (run : RunRow) (agent : AgentRow) (outcome : ReportOutcome)
    (r r' : RunRow)
    → Failed before run agent db outcome
      ⊎ (Deferred before run agent db outcome ⊎ Retried before run agent db outcome)
    → find_run run.id db ≡ some r
    → IsLater r r'
    → (in_progress r'.status && (r'.attempt == run.attempt)) ≡ false
unfolding in_progress
settled_before before db run agent outcome r r' (inl h) f l =
    let now = same_row run.id db r RunStatus.failed run.attempt f h.1.0 in
    let over = l.over (rw now.0 refl) in ground (arith, over)
settled_before before db run agent outcome r r' (inr (inl h)) f l =
    let now = same_row run.id db r RunStatus.cancelled run.attempt f h.1.0 in
    let over = l.over (rw now.0 refl) in ground (arith, over)
settled_before before db run agent outcome r r' (inr (inr h)) f l =
    let now = same_row run.id db r RunStatus.queued (run.attempt + 1) f h.1.0 in
    let at = now.1 in let later = l.attempt in ground (arith, at, later)

module _ {J : Type 0} (byte_size : J → ℕ → ℕ) (job_id_of : Job J → String)
    (redact : String → String) (reason_text : BudgetHold → String) where
  stale_check :
      (now random : ℕ) (job : RunTimeoutJob) (db : RunDb J) (r : RunRow)
      → find_run job.run_id db ≡ some r
      → (in_progress r.status && (r.attempt == job.attempt)) ≡ false
      → handle_run_timeout byte_size job_id_of redact reason_text now random job db
        ≡ ok (db, ignored_stale)
  unfolding handle_run_timeout
  stale_check now random job db r f e = elim (Option-cases (find_agent r.agent_id db)) [
    | inl a ↦ rw (lock_run-unknown job.run_id db r f a, handle_run_timeout) refl
    | inr a ↦
        let stale : (not (in_progress r.status) || not (r.attempt == job.attempt)) ≡ true =
          ground (arith, e) in
        rw (lock_run-known job.run_id db r a.0 f a.1, handle_run_timeout, stale) refl
  ]

  -- A deadline check that settled its attempt never settles anything again: it commits with the run as r,
  -- and whatever happens to the database after that, as long as the run is still stored, its attempts
  -- do not fall and it stays over once it is over, the same check is stale and changes nothing, when a
  -- later attempt is queued or running as well.
  pub handle_run_timeout-once :
      (now random later random' : ℕ) (run : RunRow) (agent : AgentRow) (db db' db'' : RunDb J)
      (outcome : ReportOutcome) (r r' : RunRow)
      → let job : RunTimeoutJob = record { run_id = run.id; attempt = run.attempt } in
        lock_run run.id db ≡ some (run, agent)
        → find_run run.id db ≡ some run
        → find_agent agent.id db ≡ some agent
        → IsReady run agent db
        → deadline_passed now job run ≡ true
        → handle_run_timeout byte_size job_id_of redact reason_text now random job db
          ≡ ok (db', outcome)
        → find_run run.id db' ≡ some r
        → find_run run.id db'' ≡ some r'
        → IsLater r r'
        → handle_run_timeout byte_size job_id_of redact reason_text later random' job db''
          ≡ ok (db'', ignored_stale)
  handle_run_timeout-once now random later random' run agent db db' db'' outcome r r' locked
        found_run found_agent ready due done f f' l =
      let job : RunTimeoutJob = record { run_id = run.id; attempt = run.attempt } in
      let settled =
        (handle_run_timeout_lem byte_size job_id_of redact reason_text now random job run agent db
            locked found_run found_agent).0
          due ready in
      let left =
        subst
          (λ x. Commits x (λ d o.
            Failed db run agent d o ⊎ (Deferred db run agent d o ⊎ Retried db run agent d o)))
          done settled in
      stale_check later random' job db'' r' f'
        (settled_before db db' run agent outcome r r' left f l)
