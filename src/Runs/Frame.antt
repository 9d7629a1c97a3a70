-- ===== src/Runs/Frame.antt =====
-- What each store operation leaves alone, and what a change of state finds afterwards.
use agent_gateway_control.Prelude.{
  ℕ, String, str_eq, eq_iff, ◌≡◌, refl, sym, ap, ◌∙◌, inl, inr, true, Option, some, any, ◌==◌,
  arith, Bool-cases, if◌then◌else◌,
}
use agent_gateway_control.Prelude.Table.{find_row, touched, find_row-update_where, find_row-key}
use agent_gateway_control.Agents.StateMachine.{
  AgentState, disabled, idle, queued, running, waiting, failed, paused,
}
use agent_gateway_control.Runs.Rows.{RunRow, AgentRow, Alert, RunDb, same_alert}
use agent_gateway_control.Runs.Store.{
  same_state, state_number, audit, raise_alert, moved_agent, set_agent_state, update_run,
}

state_of_number : ℕ → AgentState
state_of_number n =
    if n == 0
    then disabled
    else if n == 1
    then idle
    else if n == 2
    then queued
    else if n == 3
    then running
    else if n == 4
    then waiting
    else if n == 5
    then failed
    else paused

state_of_number-state_number : (s : AgentState) → state_of_number (state_number s) ≡ s
unfolding state_of_number
state_of_number-state_number disabled = refl
state_of_number-state_number idle = refl
state_of_number-state_number queued = refl
state_of_number-state_number running = refl
state_of_number-state_number waiting = refl
state_of_number-state_number failed = refl
state_of_number-state_number paused = refl

number_eq : (m n : ℕ) → (m == n) ≡ true → m ≡ n
number_eq m n e = ground arith

same_state_lem : (from to : AgentState) → same_state from to ≡ true → from ≡ to
same_state_lem from to e =
    sym (state_of_number-state_number from)
    ∙ ap state_of_number (number_eq (state_number from) (state_number to) e)
    ∙ state_of_number-state_number to

module _ {J : Type 0} where
  abbrev pub find_run : String → RunDb J → Option RunRow
  find_run id db = find_row (λ r. r.id) id db.runs

  abbrev pub find_agent : String → RunDb J → Option AgentRow
  find_agent id db = find_row (λ a. a.id) id db.agents

  pub raise_alert-frame :
      (alert : Alert) (db : RunDb J)
      → ((raise_alert alert db).runs ≡ db.runs)
        × (((raise_alert alert db).agents ≡ db.agents)
            × (((raise_alert alert db).inbox ≡ db.inbox)
                × ((raise_alert alert db).snapshots ≡ db.snapshots)))
  unfolding raise_alert
  raise_alert-frame alert db = elim (Bool-cases (any (same_alert alert) db.alerts)) [
    | inl e ↦ rw e (refl, (refl, (refl, refl)))
    | inr e ↦ rw e (refl, (refl, (refl, refl)))
  ]

  pub raise_alert-jobs : (alert : Alert) (db : RunDb J) → (raise_alert alert db).jobs ≡ db.jobs
  unfolding raise_alert
  raise_alert-jobs alert db = elim (Bool-cases (any (same_alert alert) db.alerts)) [
    | inl e ↦ rw e refl
    | inr e ↦ rw e refl
  ]

  pub set_agent_state-jobs :
      (now : ℕ) (id : String) (from to : AgentState) (db : RunDb J)
      → (set_agent_state now id from to db).jobs ≡ db.jobs
  unfolding set_agent_state audit
  set_agent_state-jobs now id from to db = elim (Bool-cases (same_state from to)) [
    | inl e ↦ rw e refl
    | inr e ↦ rw e refl
  ]

  pub set_agent_state-frame :
      (now : ℕ) (id : String) (from to : AgentState) (db : RunDb J)
      → ((set_agent_state now id from to db).runs ≡ db.runs)
        × ((set_agent_state now id from to db).inbox ≡ db.inbox)
  unfolding set_agent_state audit
  set_agent_state-frame now id from to db = elim (Bool-cases (same_state from to)) [
    | inl e ↦ rw e (refl, refl)
    | inr e ↦ rw e (refl, refl)
  ]

  pub set_agent_state-to :
      (now : ℕ) (id : String) (from to : AgentState) (db : RunDb J) (agent : AgentRow)
      → find_agent id db ≡ some agent
      → agent.state ≡ from
      → (a : AgentRow) × ((find_agent id (set_agent_state now id from to db) ≡ some a)
          × (a.state ≡ to))
  unfolding set_agent_state audit moved_agent
  set_agent_state-to now id from to db agent found is = elim (Bool-cases (same_state from to)) [
    | inl e ↦ rw e (agent, (found, is ∙ same_state_lem from to e))
    | inr e ↦ rw e (
      moved_agent now to agent,
      (
        find_row-update_where (λ a. a.id) id (λ a. str_eq a.id id) (moved_agent now to) db.agents
              (λ a. refl)
            ∙ ap (touched (λ a. a.id) (λ a. str_eq a.id id) (moved_agent now to)) found
            ∙ ap (λ b. some (if b then moved_agent now to agent else agent))
                ((eq_iff agent.id id).1 (find_row-key (λ a. a.id) id db.agents found)),
        refl,
      ),
    )
  ]

  pub update_run-find :
      (id : String) (set : RunRow → RunRow) (db : RunDb J) (run : RunRow)
      → ((r : RunRow) → (set r).id ≡ r.id)
      → find_run id db ≡ some run
      → find_run id (update_run id set db) ≡ some (set run)
  update_run-find id set db run keeps found =
      find_row-update_where (λ r. r.id) id (λ r. str_eq r.id id) set db.runs keeps
      ∙ ap (touched (λ r. r.id) (λ r. str_eq r.id id) set) found
      ∙ ap (λ b. some (if b then set run else run))
          ((eq_iff run.id id).1 (find_row-key (λ r. r.id) id db.runs found))
