-- ===== src/Runs/After.antt =====
-- What may be true after a failed attempt, and what the store operations keep of it.
use mathlib.Core.Path.{subst}
use text.Mathlib.TextPositions.{eq_refl}
use agent_gateway_control.Prelude.{
  ℕ, ◌+◌, ◌*◌, ◌++◌, none, String, ◌≡◌, refl, ap, ◌∙◌, ◌⊎◌, inl, inr, true, false, Option, some,
  List, [], ◌∷◌, any, any-append, arith, Bool-cases, Result, ok, err,
}
use agent_gateway_control.Prelude.Table.{update_where, find_row}
use agent_gateway_control.Agents.StateMachine.{
  AgentState, idle, queued, running, failed, retry, complete_idle, fail, require_transition,
  next_agent_state,
}
use agent_gateway_control.Runs.Rows.{
  RunStatus, RunRow, AgentRow, InboxStatus, InboxRow, SnapshotRow, check_deadline, Alert, RunDb,
  Job, run_attempt, same_alert,
}
use agent_gateway_control.Runs.Store.{raise_alert, enqueue_attempt}
use agent_gateway_control.Runs.Failure.{
  ReportOutcome, retry_scheduled, deferred, run_failed, Thrown, claimed_by, given_back_entry,
  raise_holds, hold_alert,
}
use agent_gateway_control.Runs.Frame.{
  find_run, find_agent, raise_alert-frame, raise_alert-jobs, update_run-find,
}

-- The agent has a run in progress.
abbrev pub IsBusy : AgentState → Type 0
IsBusy state = (state ≡ queued) ⊎ (state ≡ running)

pub same_alert_refl : (alert : Alert) → same_alert alert alert ≡ true
same_alert_refl alert = ground (arith, eq_refl alert.topic, eq_refl alert.subject)

-- An entry that the run claimed is pending again, for any run; every other entry stays.
abbrev pub IsGivenBack : String → InboxRow → InboxRow → Type 0
IsGivenBack id e e' =
    (claimed_by id e ≡ true
      → (e'.status ≡ InboxStatus.pending)
        × ((e'.run_id ≡ none) × ((e'.id ≡ e.id) × (e'.agent_id ≡ e.agent_id))))
    × (claimed_by id e ≡ false → e' ≡ e)

abbrev pub AreGivenBack : String → List InboxRow → List InboxRow → Type 0
AreGivenBack id [] [] = Unit
AreGivenBack id (e ∷ es) (e' ∷ es') = IsGivenBack id e e' × AreGivenBack id es es'
AreGivenBack id _ _ = ⊥

module _ {J : Type 0} where
  -- The transaction commits, and what it leaves satisfies P.
  abbrev pub Commits :
      Result Thrown (RunDb J × ReportOutcome) → (RunDb J → ReportOutcome → Type 0) → Type 0
  Commits (ok (db, outcome)) P = P db outcome
  Commits (err e) P = ⊥

  abbrev pub RunIs : RunDb J → String → RunStatus → ℕ → Type 0
  RunIs db id status attempt =
      (r : RunRow) × ((find_run id db ≡ some r) × ((r.status ≡ status) × (r.attempt ≡ attempt)))

  abbrev pub AgentIs : RunDb J → String → AgentState → Type 0
  AgentIs db id state = (a : AgentRow) × ((find_agent id db ≡ some a) × (a.state ≡ state))

  -- The run is over and the agent failed, an alert says so, and no entry or job changes.
  abbrev pub Failed : RunDb J → RunRow → AgentRow → RunDb J → ReportOutcome → Type 0
  Failed before run agent db outcome =
      (outcome ≡ run_failed)
      × (RunIs db run.id RunStatus.failed run.attempt
          × (AgentIs db agent.id failed
              × ((any (same_alert (record { topic = "run-failed"; subject = run.id; number = 0 }))
                      db.alerts
                    ≡ true)
                  × ((db.inbox ≡ before.inbox) × (db.jobs ≡ before.jobs)))))

  -- The run is over, the agent idle, the entries that the run claimed are pending again, and no job is
  -- sent.
  abbrev pub Deferred : RunDb J → RunRow → AgentRow → RunDb J → ReportOutcome → Type 0
  Deferred before run agent db outcome =
      (outcome ≡ deferred)
      × (RunIs db run.id RunStatus.cancelled run.attempt
          × (AgentIs db agent.id idle
              × (AreGivenBack run.id before.inbox db.inbox × (db.jobs ≡ before.jobs))))

  -- The next attempt is sent to its worker with the input that is stored for the run, to start at
  -- `start`, with the time of a run until its deadline; and the check of that deadline comes after a
  -- grace of 30 seconds.
  abbrev pub IsSent : RunDb J → RunRow → RunDb J → ℕ → Type 0
  IsSent before run db start =
      (input : J) × ((s : SnapshotRow J) × (find_row (λ x. x.run_id) run.id before.snapshots
          ≡ some s)
        × (s.input ≡ input))
      × (db.jobs
          ≡ before.jobs
            ++ run_attempt run.id (run.attempt + 1) run.runtime_adapter run.timeout_seconds input
                (start + run.timeout_seconds * 1000) start
              ∷ check_deadline run.id (run.attempt + 1) (start + (run.timeout_seconds + 30) * 1000)
              ∷ [])

  -- The next attempt of the run is queued and sent, and no entry changes.
  abbrev pub Retried : RunDb J → RunRow → AgentRow → RunDb J → ReportOutcome → Type 0
  Retried before run agent db outcome =
      (outcome ≡ retry_scheduled)
      × (RunIs db run.id RunStatus.queued (run.attempt + 1)
          × (AgentIs db agent.id queued
              × (((start : ℕ) × IsSent before run db start) × (db.inbox ≡ before.inbox))))

  pub any-raise_alert :
      (alert : Alert) (db : RunDb J) → any (same_alert alert) (raise_alert alert db).alerts ≡ true
  unfolding raise_alert
  any-raise_alert alert db = elim (Bool-cases (any (same_alert alert) db.alerts)) [
    | inl e ↦ rw e e
    | inr e ↦ rw e (any-append (same_alert alert) db.alerts alert (same_alert_refl alert))
  ]

pub given_back_lem :
    (id : String) (entries : List InboxRow)
    → AreGivenBack id entries (update_where (claimed_by id) given_back_entry entries)
unfolding given_back_entry
given_back_lem id [] = tt
given_back_lem id (e ∷ es) =
    ((λ c. rw c (refl, (refl, (refl, refl))), λ c. rw c refl), given_back_lem id es)

pub require-fail :
    (id : String) (state : AgentState) → IsBusy state → require_transition id state fail ≡ ok failed
unfolding require_transition next_agent_state
require-fail id state (inl e) = rw e refl
require-fail id state (inr e) = rw e refl

pub require-idle :
    (id : String) (state : AgentState)
    → IsBusy state
    → require_transition id state complete_idle ≡ ok idle
unfolding require_transition next_agent_state
require-idle id state (inl e) = rw e refl
require-idle id state (inr e) = rw e refl

pub require-retry :
    (id : String) (state : AgentState)
    → IsBusy state
    → require_transition id state retry ≡ ok queued
unfolding require_transition next_agent_state
require-retry id state (inl e) = rw e refl
require-retry id state (inr e) = rw e refl

module _ {J : Type 0} where
  pub RunIs-same :
      (db db' : RunDb J) (id : String) (status : RunStatus) (attempt : ℕ)
      → db'.runs ≡ db.runs
      → RunIs db id status attempt
      → RunIs db' id status attempt
  RunIs-same db db' id status attempt e h = (h.0, (ap (find_row (λ r. r.id) id) e ∙ h.1.0, h.1.1))

  pub AgentIs-same :
      (db db' : RunDb J) (id : String) (state : AgentState)
      → db'.agents ≡ db.agents
      → AgentIs db id state
      → AgentIs db' id state
  AgentIs-same db db' id state e h = (h.0, (ap (find_row (λ a. a.id) id) e ∙ h.1.0, h.1.1))

  pub raise_holds-frame :
      (alerts : List (Option String × ℕ)) (db : RunDb J)
      → ((raise_holds alerts db).runs ≡ db.runs) × ((raise_holds alerts db).agents ≡ db.agents)
  raise_holds-frame [] db = (refl, refl)
  raise_holds-frame (a ∷ rest) db =
      let kept = raise_alert-frame (hold_alert a) db in
      let others = raise_holds-frame rest (raise_alert (hold_alert a) db) in
      (others.0 ∙ kept.0, others.1 ∙ kept.1.0)

  pub raise_holds-kept :
      (alerts : List (Option String × ℕ)) (db : RunDb J)
      → ((raise_holds alerts db).inbox ≡ db.inbox) × ((raise_holds alerts db).jobs ≡ db.jobs)
  raise_holds-kept [] db = (refl, refl)
  raise_holds-kept (a ∷ rest) db =
      let kept = raise_alert-frame (hold_alert a) db in
      let others = raise_holds-kept rest (raise_alert (hold_alert a) db) in
      (others.0 ∙ kept.1.1.0, others.1 ∙ raise_alert-jobs (hold_alert a) db)

  pub enqueue_attempt-RunIs :
      (job_id_of : Job J → String) (id adapter : String) (attempt timeout deadline start : ℕ)
      (input : J) (db : RunDb J) (status : RunStatus) (n : ℕ)
      → RunIs db id status n
      → RunIs
          (enqueue_attempt job_id_of id attempt adapter timeout input deadline start db)
          id
          status
          n
  unfolding enqueue_attempt
  enqueue_attempt-RunIs job_id_of id adapter attempt timeout deadline start input db status n h =
      let job = run_attempt id attempt adapter timeout input deadline start in
      let set = λ (r : RunRow). record r { job_id = some (job_id_of job) } in
      (set h.0, (update_run-find id set db h.0 (λ r. refl) h.1.0, h.1.1))

  pub enqueue_attempt-AgentIs :
      (job_id_of : Job J → String) (id adapter : String) (attempt timeout deadline start : ℕ)
      (input : J) (db : RunDb J) (agent_id : String) (state : AgentState)
      → AgentIs db agent_id state
      → AgentIs
          (enqueue_attempt job_id_of id attempt adapter timeout input deadline start db)
          agent_id
          state
  unfolding enqueue_attempt
  enqueue_attempt-AgentIs job_id_of id adapter attempt timeout deadline start input db agent_id
        state h =
      h

  pub enqueue_attempt-jobs :
      (job_id_of : Job J → String) (id adapter : String) (attempt timeout deadline start : ℕ)
      (input : J) (db before : RunDb J)
      → db.jobs ≡ before.jobs
      → (enqueue_attempt job_id_of id attempt adapter timeout input deadline start db).jobs
        ≡ before.jobs
          ++ run_attempt id attempt adapter timeout input deadline start
            ∷ check_deadline id attempt (start + (timeout + 30) * 1000)
            ∷ []
  unfolding enqueue_attempt
  enqueue_attempt-jobs job_id_of id adapter attempt timeout deadline start input db before e =
      ap
        (λ js.
          js
          ++ run_attempt id attempt adapter timeout input deadline start
            ∷ check_deadline id attempt (start + (timeout + 30) * 1000)
            ∷ [])
        e

  pub enqueue_attempt-inbox :
      (job_id_of : Job J → String) (id adapter : String) (attempt timeout deadline start : ℕ)
      (input : J) (db : RunDb J)
      → (enqueue_attempt job_id_of id attempt adapter timeout input deadline start db).inbox
        ≡ db.inbox
  unfolding enqueue_attempt
  enqueue_attempt-inbox job_id_of id adapter attempt timeout deadline start input db = refl

  -- A deferral after the alerts of the holds is one of the database before them.
  pub raise_holds-Deferred :
      (alerts : List (Option String × ℕ)) (before : RunDb J) (run : RunRow) (agent : AgentRow)
      (db : RunDb J) (outcome : ReportOutcome)
      → Deferred (raise_holds alerts before) run agent db outcome
      → Deferred before run agent db outcome
  raise_holds-Deferred alerts before run agent db outcome h =
      let kept = raise_holds-kept alerts before in
      (
        h.0,
        (
          h.1.0,
          (
            h.1.1.0,
            (
              subst (λ entries. AreGivenBack run.id entries db.inbox) kept.0 h.1.1.1.0,
              h.1.1.1.1 ∙ kept.1,
            ),
          ),
        ),
      )
