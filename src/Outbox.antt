-- ===== src/Outbox.antt =====
-- The transactional outbox: packages/outbox/src/deliver.ts, with the statements of
-- packages/core/src/services/admin.ts (redrive), agent-lifecycle.ts (retire) and retention.ts that
-- write the same table.
pub mod Rows
pub mod Outcomes
pub mod Claim
pub mod Deliver
pub mod Reconcile
pub mod Retention
pub mod Backoff
pub mod Recovery
pub mod Handlers
pub mod Fencing
pub mod Exhaustion
mod Tests
