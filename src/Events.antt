-- ===== src/Events.antt =====
-- Gateway events: packages/contracts/src/event.ts and packages/events/src/envelope.ts.
pub mod Types
pub mod Envelope
