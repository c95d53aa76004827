-- ===== src/Fx/Store.antt =====
-- What the FX services keep, and what they take from elsewhere. The mapper, the configuration, JSON
-- and floating-point numbers are no part of the repository; the fields that state equations are
-- their documented behaviour.
use fintech_nova_pay.Common.{ℕ, ◌≡◌, true, Bool, Option, none, some, List, String, map, All}
use fintech_nova_pay.Common.Text.{Text}
use fintech_nova_pay.Common.Table.{Table}
use fintech_nova_pay.Accounts.Entity.{Currency}
use fintech_nova_pay.Outbox.Entity.{OutboxRoutingKey, Payload}
use fintech_nova_pay.Outbox.Enqueue.{enqueue_in_transaction}
use fintech_nova_pay.Ledger.Lines.{distinct}
use fintech_nova_pay.Ledger.Store.{LedgerStore, Db, Inserted, stored}
use fintech_nova_pay.Fx.Entity.{
  FxRateLock, FxLockStatus, FxTrade, FxTradeStatus, FxProvider, rate_lock_key, trade_key,
  CreateInternationalTransferDto,
}

pub record NewLock : Type 0 where
  pub user_id : ℕ
  pub source_currency : Currency
  pub target_currency : Currency
  pub source_amount : Text
  pub locked_rate : Text
  pub provider : FxProvider
  pub provider_reference : Option String
  pub expires_at : ℕ
  pub status : FxLockStatus

abbrev pub lock_with_id : ℕ → NewLock → FxRateLock
lock_with_id i n = record {
  id = i;
  user_id = n.user_id;
  source_currency = n.source_currency;
  target_currency = n.target_currency;
  source_amount = n.source_amount;
  locked_rate = n.locked_rate;
  provider = n.provider;
  provider_reference = n.provider_reference;
  expires_at = n.expires_at;
  consumed_at = none;
  status = n.status;
}

-- `fx_rate_locks`. The query of the sweep gives rows of the table, each once: those that no other
-- transaction holds, at most as many as asked for.
pub record LockTable : Type 1 where
  pub table : Table FxRateLock rate_lock_key
  pub insert : NewLock → table.Rows → Inserted table.Rows
  pub find_expired : ℕ → ℕ → table.Rows → List FxRateLock
  -- An insert leaves the other rows as they are.
  pub insert-kept :
      (n : NewLock) (t : table.Rows) {i : ℕ} {t' : table.Rows} (k : ℕ) {l : FxRateLock}
      → insert n t ≡ stored i t'
      → table.find k t ≡ some l
      → table.find k t' ≡ some l
  pub find_expired-found :
      (now cap : ℕ) (t : table.Rows)
      → All (λ l. table.find l.id t ≡ some l) (find_expired now cap t)
  pub find_expired-distinct :
      (now cap : ℕ) (t : table.Rows) → distinct (map rate_lock_key (find_expired now cap t)) ≡ true

pub record NewTrade : Type 0 where
  pub user_id : ℕ
  pub rate_lock_id : ℕ
  pub source_amount : Text
  pub source_currency : Currency
  pub target_amount : Text
  pub target_currency : Currency
  pub executed_rate : Text
  pub provider : FxProvider
  pub provider_reference : Option String
  pub status : FxTradeStatus

abbrev pub trade_with_id : ℕ → NewTrade → FxTrade
trade_with_id i n = record {
  id = i;
  user_id = n.user_id;
  rate_lock_id = n.rate_lock_id;
  source_amount = n.source_amount;
  source_currency = n.source_currency;
  target_amount = n.target_amount;
  target_currency = n.target_currency;
  executed_rate = n.executed_rate;
  provider = n.provider;
  provider_reference = n.provider_reference;
  status = n.status;
}

-- `fx_trades`, unique by rate lock
pub record TradeTable : Type 1 where
  pub table : Table FxTrade trade_key
  pub find_by_lock : ℕ → table.Rows → Option FxTrade
  pub insert : NewTrade → table.Rows → Inserted table.Rows

pub record FxStore : Type 1 where
  pub ledger : LedgerStore
  pub locks : LockTable
  pub trades : TradeTable
  pub uuid_text : ℕ → Text
  -- `(parseFloat(amount) * parseFloat(rate)).toFixed(digits)`, `none` if one is not finite.
  pub multiply : Text → Text → ℕ → Option Text
  -- `JSON.stringify` of the memo's fields.
  pub memo_json : FxTrade → FxRateLock → CreateInternationalTransferDto → Text
  -- `FX_SETTLEMENT_ACCOUNT_<CURRENCY>`, trimmed, if it is set and not blank.
  pub settlement : Currency → Option ℕ
  -- `FX_PROVIDER_MOCK === 'true'`
  pub mock_enabled : Bool

pub record TradingDb (Ledger Locks Trades : Type 0) : Type 0 where
  pub ledger : Ledger
  pub locks : Locks
  pub trades : Trades

abbrev pub FxDb : FxStore → Type 0
FxDb S = TradingDb (Db S.ledger) S.locks.table.Rows S.trades.table.Rows

module _ (S : FxStore) where
  unfoldable pub enqueue_fx_event : ℕ → OutboxRoutingKey → Option Text → Payload → FxDb S → FxDb S
  enqueue_fx_event now key correlation payload db = record db {
    ledger = record (db.ledger) {
      outbox =
          enqueue_in_transaction S.ledger.events now
            (record {
              routing_key = key;
              payload = payload;
              correlation_id = correlation;
              occurred_at = now;
            })
            db.ledger.outbox;
    };
  }
