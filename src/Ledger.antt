-- ===== src/Ledger.antt =====
-- The ledger: nova-pay/src/modules/ledger.
pub mod Entity
pub mod Lines
pub mod Store
pub mod Projection
pub mod Posting
pub mod Balance
pub mod Netting
pub mod Projected
pub mod Conservation
pub mod Outcome
pub mod Atomicity
pub mod Replay
pub mod Reversal
pub mod Mirror
