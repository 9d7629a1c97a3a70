-- ===== src/Agents.antt =====
-- The life of a logical agent.
pub mod StateMachine
