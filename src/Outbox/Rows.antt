-- ===== src/Outbox/Rows.antt =====
-- The `outbox` table of packages/db/src/schema.ts. `J` stands for the JSON values that the code
-- only stores and hands on. Times are milliseconds.
use agent_gateway_control.Prelude.{ℕ, String, Option, Bool, true, false, List}

pub data OutboxStatus : Type 0 where
  pending sending sent dead cancelled : OutboxStatus

pub data OutboxKind : Type 0 where
  mattermost_post mattermost_alert mattermost_approval mattermost_approval_reply : OutboxKind

pub record OutboxRow (J : Type 0) : Type 0 where
  pub id : String
  pub kind : OutboxKind
  pub destination : String
  pub payload : J
  pub idempotency_key : String
  pub status : OutboxStatus
  pub attempts : ℕ
  pub max_attempts : ℕ
  pub next_attempt_at : ℕ
  pub locked_until : Option ℕ
  pub last_error : Option String
  pub receipt : Option J
  pub run_id : Option String
  pub created_at : ℕ
  pub sent_at : Option ℕ
  pub content_expired : Bool

-- `eq(outbox.status, …)`
abbrev pub is_pending : OutboxStatus → Bool
is_pending pending = true
is_pending _ = false

abbrev pub is_sending : OutboxStatus → Bool
is_sending sending = true
is_sending _ = false

abbrev pub is_dead : OutboxStatus → Bool
is_dead dead = true
is_dead _ = false

-- The row of the audit log that a dead item leaves.
pub record DeadAudit : Type 0 where
  pub at : ℕ
  pub subject_id : String
  pub attempts : ℕ
  pub error : String

pub record Db (J : Type 0) : Type 0 where
  pub outbox : List (OutboxRow J)
  pub audit_log : List DeadAudit
