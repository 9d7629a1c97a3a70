-- ===== src/Routing.antt =====
-- Deterministic routing of one event: packages/core/src/routing.ts.
pub mod Model
pub mod Candidates
pub mod Guards
pub mod Route
pub mod Budget
pub mod Grounds
pub mod Safety
pub mod CandidateKeys
pub mod Coverage
pub mod Tiers
mod Tests
