-- ===== src/Payroll.antt =====
-- Payroll: nova-pay/src/modules/payroll.
pub mod Entity
pub mod Validation
pub mod Store
pub mod Payouts
pub mod Items
pub mod Create
pub mod Ready
pub mod Finish
pub mod Completion
pub mod Funding
pub mod PayoutMoney
pub mod FundingMoney
pub mod Money
pub mod Ended
