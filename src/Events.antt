-- ===== src/Events.antt =====
-- modules/events: delivery of domain events to consumers. Envelope is the envelope and its tenant,
-- Registry the consumer registry with claims, retries and dead letters, DeadLetters the operator's
-- surface of the queue, Outbox the transactional outbox and the event bus. The other modules hold the
-- theorems.
pub mod Envelope
pub mod Registry
pub mod DeadLetters
pub mod Outbox
pub mod Recovery
pub mod Claims
pub mod Delivery
pub mod Replay
mod Tests
