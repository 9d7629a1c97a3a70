-- ===== src/Turns.antt =====
-- The result of an agent's turn against the authority of its run: packages/contracts/src/turn.ts and
-- packages/contracts/src/turn-authority.ts.
pub mod Result
pub mod Check
pub mod Each
pub mod Within
pub mod Messages
pub mod Authority
pub mod Tests
