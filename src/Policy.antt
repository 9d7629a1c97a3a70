-- ===== src/Policy.antt =====
-- The policy package: packages/policy/src.
pub mod Patterns
pub mod Tools
pub mod Authority
pub mod Budget
pub mod Holds
pub mod Warnings
pub mod IpGuard
pub mod PublicAddress
mod Tests
pub mod Ledger
pub mod Booking
mod LedgerTests
