-- ===== src/Outbox.antt =====
-- The transactional outbox: nova-pay/src/infrastructure/outbox.
pub mod Entity
pub mod Enqueue
pub mod Relay
pub mod Evolution
pub mod Batch
