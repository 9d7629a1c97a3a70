-- ===== src/Runs/Store.antt =====
-- The store operations that a failed attempt uses: packages/core/src/services/store.ts, and
-- enqueueAttempt of scheduler.ts. The id that the queue gives a job is a parameter.
use agent_gateway_control.Prelude.{
  ℕ, ◌+◌, ◌*◌, String, str_eq, Bool, true, false, some, [], ◌∷◌, ◌++◌, any, ◌==◌, if◌then◌else◌,
}
use agent_gateway_control.Prelude.Table.{update_where}
use agent_gateway_control.Agents.StateMachine.{
  AgentState, disabled, idle, queued, running, waiting, failed, paused,
}
use agent_gateway_control.Runs.Rows.{
  RunRow, AgentRow, Alert, AuditEntry, RunDb, Job, run_attempt, check_deadline, same_alert,
}

abbrev pub state_number : AgentState → ℕ
state_number disabled = 0
state_number idle = 1
state_number queued = 2
state_number running = 3
state_number waiting = 4
state_number failed = 5
state_number paused = 6

-- `from === to`
abbrev pub same_state : AgentState → AgentState → Bool
same_state from to = state_number from == state_number to

abbrev pub is_enabled : AgentState → Bool
is_enabled disabled = false
is_enabled _ = true

unfoldable pub moved_agent : ℕ → AgentState → AgentRow → AgentRow
moved_agent now to agent = record agent {
  state = to;
  enabled = is_enabled to;
  state_changed_at = now;
}

module _ {J : Type 0} where
  unfoldable pub audit : ℕ → String → String → RunDb J → RunDb J
  audit now action subject_id db =
      let entry : AuditEntry = record { at = now; action = action; subject_id = subject_id } in
      record db { audit_log = db.audit_log ++ entry ∷ [] }

  -- A second alert with the same key is a no-op.
  unfoldable pub raise_alert : Alert → RunDb J → RunDb J
  raise_alert alert db =
      if any (same_alert alert) db.alerts
      then db
      else record db { alerts = db.alerts ++ alert ∷ [] }

  unfoldable pub set_agent_state : ℕ → String → AgentState → AgentState → RunDb J → RunDb J
  unfolding audit moved_agent
  set_agent_state now agent_id from to db =
      if same_state from to
      then db
      else audit now "agent.state" agent_id (record db {
        agents = update_where (λ a. str_eq a.id agent_id) (moved_agent now to) db.agents;
      })

  abbrev pub update_run : String → (RunRow → RunRow) → RunDb J → RunDb J
  update_run run_id set db = record db { runs = update_where (λ r. str_eq r.id run_id) set db.runs }

abbrev timeout_grace_seconds : ℕ
timeout_grace_seconds = 30

module _ {J : Type 0} (job_id_of : Job J → String) where
  -- Sends the attempt to its worker and the check of its deadline, and stores the job's id.
  unfoldable pub enqueue_attempt : String → ℕ → String → ℕ → J → ℕ → ℕ → RunDb J → RunDb J
  enqueue_attempt run_id attempt adapter timeout_seconds input deadline start db =
      let job = run_attempt run_id attempt adapter timeout_seconds input deadline start in
      let check =
        check_deadline run_id attempt (start + (timeout_seconds + timeout_grace_seconds) * 1000) in
      let sent : RunDb J = record db { jobs = db.jobs ++ job ∷ check ∷ [] } in
      update_run run_id (λ r. record r { job_id = some (job_id_of job) }) sent
