-- ===== src/Loans.antt =====
-- Loans: nova-pay/src/modules/loans.
pub mod Entity
pub mod Store
pub mod Apply
pub mod Disburse
pub mod Repay
pub mod Overdue
pub mod Once
pub mod Lifecycle
pub mod Evolution
pub mod Runs
pub mod Accounting
pub mod Money
