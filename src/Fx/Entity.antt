-- ===== src/Fx/Entity.antt =====
-- Rate locks, trades and their commands (modules/fx/entities, enums, dto). Times are milliseconds;
-- creation and update times are the database's.
use fintech_nova_pay.Common.{ℕ, String, Bool, true, false, Option}
use fintech_nova_pay.Common.Text.{Text}
use fintech_nova_pay.Accounts.Entity.{Currency}

pub data FxLockStatus : Type 0 where
  pending active consumed expired cancelled : FxLockStatus

pub data FxProvider : Type 0 where
  internal mock external : FxProvider

pub data FxTradeStatus : Type 0 where
  pending completed failed cancelled : FxTradeStatus

pub record FxRateLock : Type 0 where
  pub id : ℕ
  pub user_id : ℕ
  pub source_currency : Currency
  pub target_currency : Currency
  pub source_amount : Text
  pub locked_rate : Text
  pub provider : FxProvider
  pub provider_reference : Option String
  pub expires_at : ℕ
  pub consumed_at : Option ℕ
  pub status : FxLockStatus

abbrev pub rate_lock_key : FxRateLock → ℕ
rate_lock_key l = l.id

pub record FxTrade : Type 0 where
  pub id : ℕ
  pub user_id : ℕ
  pub rate_lock_id : ℕ
  pub source_amount : Text
  pub source_currency : Currency
  pub target_amount : Text
  pub target_currency : Currency
  pub executed_rate : Text
  pub provider : FxProvider
  pub provider_reference : Option String
  pub status : FxTradeStatus

abbrev pub trade_key : FxTrade → ℕ
trade_key t = t.id

pub record LockRateDto : Type 0 where
  pub source_currency : Currency
  pub target_currency : Currency
  pub source_amount : Text

pub record CreateInternationalTransferDto : Type 0 where
  pub idempotency_key : Text
  pub idempotency_scope_key : Option Text
  pub reference : Text
  pub correlation_id : Option Text
  pub source_account_id : ℕ
  pub destination_account_id : ℕ
  pub rate_lock_id : ℕ
  pub amount : Text

abbrev pub is_active_lock : FxLockStatus → Bool
is_active_lock active = true
is_active_lock _ = false

-- The values that the enums give.
abbrev pub provider_name : FxProvider → String
provider_name internal = "INTERNAL"
provider_name mock = "MOCK"
provider_name external = "EXTERNAL"

abbrev pub lock_status_name : FxLockStatus → String
lock_status_name pending = "PENDING"
lock_status_name active = "ACTIVE"
lock_status_name consumed = "CONSUMED"
lock_status_name expired = "EXPIRED"
lock_status_name cancelled = "CANCELLED"

abbrev pub trade_status_name : FxTradeStatus → String
trade_status_name pending = "PENDING"
trade_status_name completed = "COMPLETED"
trade_status_name failed = "FAILED"
trade_status_name cancelled = "CANCELLED"
