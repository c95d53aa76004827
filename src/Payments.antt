-- ===== src/Payments.antt =====
-- Payments: nova-pay/src/modules/payments.
pub mod Entity
pub mod Store
pub mod Slot
pub mod Requests
pub mod Orchestrator
pub mod Gate
pub mod Taken
pub mod Replay
pub mod SlotMoney
pub mod Money
