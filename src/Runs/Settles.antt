-- ===== src/Runs/Settles.antt =====
-- fail_run, defer_for_budget and retry_run (packages/core/src/services/runs.ts), each as a whole.
use agent_gateway_control.Prelude.{
  ℕ, ◌+◌, ◌*◌, String, str_eq, ◌≡◌, refl, ◌∙◌, inl, inr, true, Option, some, is_some, arith,
  Option-cases,
}
use agent_gateway_control.Prelude.Table.{update_where, find_row}
use agent_gateway_control.Agents.StateMachine.{idle, queued, failed}
use agent_gateway_control.Policy.Budget.{RuntimeUsage}
use agent_gateway_control.Runs.Rows.{RunStatus, RunRow, AgentRow, Alert, RunDb, Job}
use agent_gateway_control.Runs.Store.{audit, raise_alert, set_agent_state, update_run}
use agent_gateway_control.Runs.Failure.{
  run_retry_delay_seconds, failed_run, deferred_run, retried_run, claimed_by, given_back_entry,
  defer_for_budget, fail_run, retry_run,
}
use agent_gateway_control.Runs.Frame.{
  find_run, find_agent, raise_alert-frame, set_agent_state-frame, set_agent_state-jobs,
  raise_alert-jobs, set_agent_state-to, update_run-find,
}
use agent_gateway_control.Runs.After.{
  IsBusy, Commits, Failed, Deferred, Retried, any-raise_alert, given_back_lem, require-fail,
  require-idle, require-retry, RunIs-same, AgentIs-same, enqueue_attempt-RunIs,
  enqueue_attempt-AgentIs, enqueue_attempt-jobs, enqueue_attempt-inbox,
}

module _ {J : Type 0} (now : ℕ) (run : RunRow) (agent : AgentRow) (code detail version : String)
    (usage : Option RuntimeUsage) (db : RunDb J) (found_run : find_run run.id db ≡ some run)
    (found_agent : find_agent agent.id db ≡ some agent) (busy : IsBusy agent.state) where
  pub fail_run-Failed :
      Commits (fail_run now run agent code detail version usage db) (Failed db run agent)
  unfolding fail_run audit failed_run
  fail_run-Failed =
      let set = failed_run now code detail version usage in
      let ended = update_run run.id set db in
      let moved_db = set_agent_state now agent.id agent.state failed ended in
      let alert : Alert = record { topic = "run-failed"; subject = run.id; number = 0 } in
      let kept = raise_alert-frame alert moved_db in
      rw (require-fail agent.id agent.state busy) (
        refl,
        (
          RunIs-same ended (raise_alert alert moved_db) run.id RunStatus.failed run.attempt
              (kept.0 ∙ (set_agent_state-frame now agent.id agent.state failed ended).0)
              (set run, (update_run-find run.id set db run (λ r. refl) found_run, (refl, refl))),
          (
            AgentIs-same moved_db (raise_alert alert moved_db) agent.id failed kept.1.0
                (set_agent_state-to now agent.id agent.state failed ended agent found_agent refl),
            (
              any-raise_alert alert moved_db,
              (
                kept.1.1.0 ∙ (set_agent_state-frame now agent.id agent.state failed ended).1,
                raise_alert-jobs alert moved_db
                    ∙ set_agent_state-jobs now agent.id agent.state failed ended,
              ),
            ),
          ),
        ),
      )

  pub defer_for_budget-Deferred :
      Commits (defer_for_budget now run agent code detail version usage db) (Deferred db run agent)
  unfolding defer_for_budget audit deferred_run
  defer_for_budget-Deferred =
      let set = deferred_run now code detail version usage in
      let ended = update_run run.id set db in
      let returned : RunDb J = record ended {
        inbox = update_where (claimed_by run.id) given_back_entry ended.inbox;
      } in
      let moved_db = set_agent_state now agent.id agent.state idle returned in
      let kept = set_agent_state-frame now agent.id agent.state idle returned in
      rw (require-idle agent.id agent.state busy) (
        refl,
        (
          RunIs-same returned moved_db run.id RunStatus.cancelled run.attempt kept.0
              (set run, (update_run-find run.id set db run (λ r. refl) found_run, (refl, refl))),
          (
            set_agent_state-to now agent.id agent.state idle returned agent found_agent refl,
            (
              rw kept.1 (given_back_lem run.id db.inbox),
              set_agent_state-jobs now agent.id agent.state idle returned,
            ),
          ),
        ),
      )

  module _ (byte_size : J → ℕ → ℕ) (job_id_of : Job J → String) (random : ℕ)
      (stored : is_some (find_row (λ s. s.run_id) run.id db.snapshots) ≡ true) where
    pub retry_run-Retried :
        Commits
          (retry_run byte_size job_id_of now random run agent code detail version usage db)
          (Retried db run agent)
    unfolding retry_run audit retried_run
    retry_run-Retried = elim (Option-cases (find_row (λ s. s.run_id) run.id db.snapshots)) [
      | inl e ↦ absurd (ground (arith, e, stored))
      | inr e ↦
          let start_after = now + run_retry_delay_seconds run.attempt random * 1000 in
          let deadline = start_after + run.timeout_seconds * 1000 in
          let stored_db : RunDb J = record db {
            snapshots =
                update_where (λ s. str_eq s.run_id run.id)
                  (λ s. record s { deadline = deadline; size_bytes = byte_size e.0.input deadline })
                  db.snapshots;
          } in
          let set = retried_run (run.attempt + 1) deadline code detail version usage in
          let again = update_run run.id set stored_db in
          let moved_db = set_agent_state now agent.id agent.state queued again in
          rw (e.1, retry_run, require-retry agent.id agent.state busy)
            (
              refl,
              (
                enqueue_attempt-RunIs job_id_of run.id run.runtime_adapter (run.attempt + 1)
                    run.timeout_seconds deadline start_after e.0.input moved_db RunStatus.queued
                    (run.attempt + 1)
                    (RunIs-same again moved_db run.id RunStatus.queued (run.attempt + 1)
                      (set_agent_state-frame now agent.id agent.state queued again).0
                      (
                        set run,
                        (
                          update_run-find run.id set stored_db run (λ r. refl) found_run,
                          (refl, refl),
                        ),
                      )),
                (
                  enqueue_attempt-AgentIs job_id_of run.id run.runtime_adapter (run.attempt + 1)
                      run.timeout_seconds deadline start_after e.0.input moved_db agent.id queued
                      (set_agent_state-to now agent.id agent.state queued again agent found_agent
                        refl),
                  (
                    (
                      start_after,
                      (
                        e.0.input,
                        (e.0, e.1, refl),
                        enqueue_attempt-jobs job_id_of run.id run.runtime_adapter (run.attempt + 1)
                            run.timeout_seconds deadline start_after e.0.input moved_db db
                            (set_agent_state-jobs now agent.id agent.state queued again),
                      ),
                    ),
                    enqueue_attempt-inbox job_id_of run.id run.runtime_adapter (run.attempt + 1)
                          run.timeout_seconds deadline start_after e.0.input moved_db
                        ∙ (set_agent_state-frame now agent.id agent.state queued again).1,
                  ),
                ),
              ),
            )
    ]
