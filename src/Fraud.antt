-- ===== src/Fraud.antt =====
-- Fraud: nova-pay/src/modules/fraud.
pub mod Entity
pub mod Store
pub mod Rules
pub mod Velocity
pub mod Engine
pub mod Aggregate
pub mod Service
pub mod Decision
pub mod Evaluation
pub mod FailClosed
pub mod Records
