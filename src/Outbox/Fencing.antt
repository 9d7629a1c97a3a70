-- ===== src/Outbox/Fencing.antt =====
-- One outbox item under many workers: claims in flight, settlements that come late, crashes,
-- reconciliation, redrives, the retirement of its agent and the retention sweep, in any order.
pub mod System
mod Invariant
mod Owners
pub use Invariant.*
pub use Owners.*
