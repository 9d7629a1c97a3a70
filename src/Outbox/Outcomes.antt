-- ===== src/Outbox/Outcomes.antt =====
-- What goes into a deliverer and what comes out of a delivery (packages/outbox/src/deliver.ts).
use agent_gateway_control.Prelude.{ℕ, String, Bool}
use agent_gateway_control.Outbox.Rows.{OutboxKind}

-- What a deliverer receives.
pub record OutboxItem (J : Type 0) : Type 0 where
  pub id : String
  pub kind : OutboxKind
  pub destination : String
  pub payload : J
  pub idempotency_key : String
  pub attempt : ℕ
  pub created_at : ℕ

-- A receipt, or what was thrown: a `DeliveryError` carries `retryable`.
pub data Delivery (J : Type 0) : Type 0 where
  delivered : J → Delivery J
  delivery_error : String → Bool → Delivery J
  other_error : String → Delivery J

pub data DeliveryOutcome : Type 0 where
  sent skipped not_due dead : DeliveryOutcome

-- The promise resolves to an outcome, or rejects with the error so that the queue retries.
pub data Settled : Type 0 where
  resolved : DeliveryOutcome → Settled
  rethrown : Settled
