-- ===== src/Waits.antt =====
-- Durable waits: packages/core/src/waits.ts, with the condition of packages/contracts/src/wait.ts.
pub mod Matching
pub mod Answers
pub mod Timeout
pub mod Sample
mod Tests
pub mod Store
pub mod Consumed
pub mod Once
pub mod Life
mod LifeTests
