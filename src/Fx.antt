-- ===== src/Fx.antt =====
-- Rate locks and international transfers: nova-pay/src/modules/fx.
pub mod Entity
pub mod Store
pub mod Locks
pub mod Sweep
pub mod Transfer
pub mod Settlement
pub mod Lifecycle
pub mod Runs
pub mod Expiry
