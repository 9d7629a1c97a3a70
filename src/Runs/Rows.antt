-- ===== src/Runs/Rows.antt =====
-- The tables that the attempts of a run live in (packages/db/src/schema.ts), their columns as far as a
-- failed attempt reads or writes them. `J` is the stored input of a turn less its deadline.
use agent_gateway_control.Prelude.{ℕ, String, str_eq, Bool, true, false, ◌&&◌, Option, List, ◌==◌}
use agent_gateway_control.Agents.StateMachine.{AgentState}
use agent_gateway_control.Policy.Budget.{RuntimeUsage, OrganizationBudgets}
use agent_gateway_control.Policy.Ledger.{UsageRow}

pub data RunStatus : Type 0 where
  queued running succeeded failed cancelled : RunStatus

pub record RunRow : Type 0 where
  pub id : String
  pub agent_id : String
  pub status : RunStatus
  pub attempt : ℕ
  pub max_attempts : ℕ
  pub runtime_adapter : String
  pub runtime_version : Option String
  pub started_at : Option ℕ
  pub finished_at : Option ℕ
  pub timeout_at : ℕ
  pub timeout_seconds : ℕ
  pub error_code : Option String
  pub error_detail : Option String
  pub usage : Option RuntimeUsage
  pub job_id : Option String

pub record AgentRow : Type 0 where
  pub id : String
  pub state : AgentState
  pub enabled : Bool
  pub state_changed_at : ℕ

pub data InboxStatus : Type 0 where
  pending claimed consumed dead : InboxStatus

pub record InboxRow : Type 0 where
  pub id : String
  pub agent_id : String
  pub status : InboxStatus
  pub run_id : Option String

pub record SnapshotRow (J : Type 0) : Type 0 where
  pub run_id : String
  pub input : J
  pub deadline : ℕ
  pub size_bytes : ℕ

-- What the queue is sent: an attempt for its worker, or the check of an attempt's deadline.
pub data Job (J : Type 0) : Type 0 where
  run_attempt : String → ℕ → String → ℕ → J → ℕ → ℕ → Job J
  check_deadline : String → ℕ → ℕ → Job J

-- The parts of an alert's idempotency key.
pub record Alert : Type 0 where
  pub topic : String
  pub subject : String
  pub number : ℕ

pub record AuditEntry : Type 0 where
  pub at : ℕ
  pub action : String
  pub subject_id : String

pub record RunDb (J : Type 0) : Type 0 where
  pub runs : List RunRow
  pub agents : List AgentRow
  pub inbox : List InboxRow
  pub snapshots : List (SnapshotRow J)
  pub ledger : List UsageRow
  pub budgets : Option OrganizationBudgets
  pub unavailable_runtimes : List String
  pub alerts : List Alert
  pub audit_log : List AuditEntry
  pub jobs : List (Job J)

abbrev pub is_queued : RunStatus → Bool
is_queued queued = true
is_queued _ = false

abbrev pub is_running : RunStatus → Bool
is_running running = true
is_running _ = false

-- `inProgress`
unfoldable pub in_progress : RunStatus → Bool
in_progress queued = true
in_progress running = true
in_progress _ = false

abbrev pub is_claimed : InboxStatus → Bool
is_claimed claimed = true
is_claimed _ = false

abbrev pub same_alert : Alert → Alert → Bool
same_alert a b = str_eq a.topic b.topic && (str_eq a.subject b.subject && a.number == b.number)
