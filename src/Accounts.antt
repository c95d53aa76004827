-- ===== src/Accounts.antt =====
-- Accounts: nova-pay/src/modules/accounts.
pub mod Entity
pub mod Service
pub mod Lifecycle
