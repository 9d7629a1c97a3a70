-- ===== src/Runs.antt =====
-- The attempts of a run: packages/core/src/services/runs.ts.
pub mod Rows
pub mod Store
pub mod Scope
pub mod Failure
pub mod Backstops
mod Frame
mod Lookups
mod Reach
mod After
mod Settles
mod Verdict
mod Deadline
mod Redelivery
mod Delay
mod Tests
mod ScopeTests
