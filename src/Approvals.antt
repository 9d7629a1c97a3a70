-- ===== src/Approvals.antt =====
-- Approval requests and the tool actions they grant: packages/core/src/services/approvals.ts and
-- approval-store.ts, and the database's part of it, packages/db/migrations/0011_approval_guards.sql.
pub mod Requests
pub mod Actions
pub mod Case
pub mod Codes
pub mod Resolve
pub mod Execution
pub mod Decide
pub mod Settle
pub mod Begin
pub mod Reports
pub mod Withdraw
pub mod Writes
pub mod Invariant
pub mod Kept
pub mod Replied
pub mod Moved
pub mod Swept
pub mod Taken
pub mod Withdrawn
pub mod New
pub mod Life
pub mod Once
pub mod Preserved
pub mod Authority
pub mod Granted
pub mod Sweep
pub mod Ended
pub mod Emptied
pub mod Refused
pub mod Reported
pub mod Tests
pub mod Commands
pub mod RoundTrip
pub mod CodeTests
