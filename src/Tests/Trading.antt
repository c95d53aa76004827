-- ===== src/Tests/Trading.antt =====
-- Rate locks and international transfers over the small bank.
use fintech_nova_pay.Common.{
  ℕ, suc, ◌==◌, ◌≡◌, refl, true, false, Option, none, some, List, [], ◌∷◌, length, map, All,
  if◌then◌else◌, arith,
}
use fintech_nova_pay.Common.Int.{◌+ℤ◌, ◌-ℤ◌, negate}
use fintech_nova_pay.Common.Result.{Result, err, Exception}
use fintech_nova_pay.Common.Text.{trim, to_string, big_int, pad_start, strip_zeros, same_text}
use fintech_nova_pay.Common.Dict.{lookup, insert, keys, sort, elem}
use fintech_nova_pay.Common.Table.{save_all}
use fintech_nova_pay.Decimal.{
  scaled, parse_scaled_amount, parse_scaled_balance_field, parse_scaled_decimal,
  format_scaled_decimal,
}
use fintech_nova_pay.Decimal.Pattern.{span_digits, match_fraction, match_decimal, match_signed}
use fintech_nova_pay.Accounts.Entity.{Currency, usd, eur, same_currency, Account}
use fintech_nova_pay.Ledger.Conservation.{total}
use fintech_nova_pay.Ledger.Lines.{
  add_line, sum_sides, every_equal, assert_balanced_per_currency, distinct, count_from,
  assign_line_numbers, add_delta, net_lines,
}
use fintech_nova_pay.Ledger.Projection.{
  net_projection, project_account, validate_account, validate_all, project_all,
  apply_ledger_posting_projections,
}
use fintech_nova_pay.Ledger.Posting.{
  assert_reversal_metadata, line_rows, projection_lines, insert_by_line, entries_of,
  load_tx_with_entries, assert_reversal_target_posted,
  validate_account_balances_before_ledger_insert, write_lines, insert_header, check_posting,
  post_new, post_with_shared_manager,
}
use fintech_nova_pay.Ledger.Store.{Inserted, stored}
use fintech_nova_pay.Outbox.Enqueue.{enqueue_in_transaction}
use fintech_nova_pay.Fx.Entity.{
  FxRateLock, FxLockStatus, FxProvider, FxTrade, CreateInternationalTransferDto, rate_lock_key,
  trade_key,
}
use fintech_nova_pay.Fx.Store.{
  NewLock, lock_with_id, LockTable, trade_with_id, TradeTable, FxStore, FxDb, enqueue_fx_event,
}
use fintech_nova_pay.Fx.Locks.{check_consumable, assert_lock_consumable_with_lock}
use fintech_nova_pay.Fx.Sweep.{sweep_expired_locks}
use fintech_nova_pay.Fx.Transfer.{
  transfer_correlation, build_fx_ledger_memo, new_trade, transfer_entries, consume_lock,
  settlement_account_id, ledger_dto, finish_trade, settle, find_settlements, insert_trade, consume,
  transfer_in_transaction, execute_international_transfer,
}
use fintech_nova_pay.Fx.Settlement.{transfer-total}
use fintech_nova_pay.Fx.Lifecycle.{Used}
use fintech_nova_pay.Fx.Locks.{lock_rate}
use fintech_nova_pay.Fx.Runs.{calls, locking, sweeping, ended, transfer-once}
use fintech_nova_pay.Fx.Expiry.{Swept, sweep_expired_locks-Swept}
use fintech_nova_pay.Tests.Tables.{
  find_account, sum, find_tx, taken, insert_tx, account_table, ledger_store, ledger_db, wallet,
}
use fintech_nova_pay.Tests.Rows.{find_row, row_table, find_row-here, find_row-below}
use fintech_nova_pay.Tests.Postings.{is_ok, returned}
use fintech_nova_pay.Tests.Submissions.{twelve}

abbrev add_lock : NewLock → List FxRateLock → Inserted (List FxRateLock)
add_lock n t = let i = suc (sum (map rate_lock_key t)) in stored i (lock_with_id i n ∷ t)

add_lock-kept :
    (n : NewLock) (t : List FxRateLock) {i : ℕ} {t' : List FxRateLock} (k : ℕ) {l : FxRateLock}
    → add_lock n t ≡ stored i t'
    → find_row rate_lock_key k t ≡ some l
    → find_row rate_lock_key k t' ≡ some l
unfolding find_row
add_lock-kept n t k h f =
    let below = find_row-below rate_lock_key k t f in
    let apart : (suc (sum (map rate_lock_key t)) == k) ≡ false = ground (arith, below) in
    ground (arith, h, f, apart)

-- The newest row, of whatever status and time, is what the sweep is given.
abbrev newest : List FxRateLock → List FxRateLock
newest [] = []
newest (l ∷ t) = l ∷ []

newest-found : (t : List FxRateLock) → All (λ l. find_row rate_lock_key l.id t ≡ some l) (newest t)
newest-found [] = tt
newest-found (l ∷ t) = (find_row-here rate_lock_key l t, tt)

newest-distinct : (t : List FxRateLock) → distinct (map rate_lock_key (newest t)) ≡ true
unfolding distinct
newest-distinct [] = refl
newest-distinct (l ∷ t) = refl

abbrev lock_table : LockTable
lock_table = record {
  table = row_table rate_lock_key;
  insert = add_lock;
  find_expired = λ now cap t. newest t;
  insert-kept = add_lock-kept;
  find_expired-found = λ now cap t. newest-found t;
  find_expired-distinct = λ now cap t. newest-distinct t;
}

unfoldable find_traded : ℕ → List FxTrade → Option FxTrade
find_traded i [] = none
find_traded i (x ∷ t) = if x.rate_lock_id == i then some x else find_traded i t

abbrev trade_table : TradeTable
trade_table = record {
  table = row_table trade_key;
  find_by_lock = find_traded;
  insert = λ n t. stored (suc (length t)) (trade_with_id (suc (length t)) n ∷ t);
}

abbrev house : Currency → Option ℕ
house usd = some 3
house _ = some 4

abbrev desk : FxStore
desk = record {
  ledger = ledger_store;
  locks = lock_table;
  trades = trade_table;
  uuid_text = λ i. i ∷ [];
  multiply = λ a r n. some a;
  memo_json = λ x l d. d.reference;
  settlement = house;
  mock_enabled = true;
}

abbrev lock : FxRateLock
lock = record {
  id = 1;
  user_id = 10;
  source_currency = usd;
  target_currency = eur;
  source_amount = twelve;
  locked_rate = b'1' ∷ [];
  provider = FxProvider.mock;
  provider_reference = none;
  expires_at = 60;
  consumed_at = none;
  status = FxLockStatus.active;
}

abbrev in_euro : Account → Account
in_euro a = record a { currency = eur }

abbrev trading_db : FxDb desk
trading_db = record {
  ledger = record ledger_db {
    accounts =
        wallet 1 10 (b'5' ∷ b'0' ∷ [])
        ∷ in_euro (wallet 2 20 (b'0' ∷ []))
        ∷ wallet 3 30 (b'0' ∷ [])
        ∷ in_euro (wallet 4 30 (b'9' ∷ b'0' ∷ []))
        ∷ [];
  };
  locks = lock ∷ [];
  trades = [];
}

abbrev order : CreateInternationalTransferDto
order = record {
  idempotency_key = b'k' ∷ [];
  idempotency_scope_key = none;
  reference = b'r' ∷ [];
  correlation_id = none;
  source_account_id = 1;
  destination_account_id = 2;
  rate_lock_id = 1;
  amount = twelve;
}

abbrev traded : Result FxTrade × FxDb desk
traded = execute_international_transfer desk 7 10 order trading_db

runs : is_ok traded.0 ≡ true
unfolding ◌+ℤ◌ ◌-ℤ◌ negate lookup insert keys sort save_all trim to_string big_int pad_start
    strip_zeros same_text scaled parse_scaled_amount parse_scaled_balance_field parse_scaled_decimal
    format_scaled_decimal span_digits match_fraction match_decimal match_signed same_currency
    add_line sum_sides every_equal assert_balanced_per_currency distinct count_from
    assign_line_numbers add_delta net_lines net_projection project_account validate_account
    validate_all project_all apply_ledger_posting_projections assert_reversal_metadata line_rows
    projection_lines insert_by_line entries_of load_tx_with_entries assert_reversal_target_posted
    validate_account_balances_before_ledger_insert write_lines insert_header check_posting post_new
    post_with_shared_manager enqueue_in_transaction find_account sum find_tx taken insert_tx
    enqueue_fx_event check_consumable assert_lock_consumable_with_lock transfer_correlation
    build_fx_ledger_memo new_trade transfer_entries consume_lock settlement_account_id ledger_dto
    finish_trade settle find_settlements insert_trade consume transfer_in_transaction
    execute_international_transfer find_row find_traded
runs = refl

house_in_set : (x : Currency) (a : ℕ) → house x ≡ some a → elem a (1 ∷ 2 ∷ 3 ∷ 4 ∷ []) ≡ true
house_in_set x a h = ground (arith, h)

transfer-total_example :
    total account_table usd (1 ∷ 2 ∷ 3 ∷ 4 ∷ []) traded.1.ledger.accounts
    ≡ total account_table usd (1 ∷ 2 ∷ 3 ∷ 4 ∷ []) trading_db.ledger.accounts
unfolding distinct
transfer-total_example =
    transfer-total desk usd (1 ∷ 2 ∷ 3 ∷ 4 ∷ []) order refl refl refl house_in_set 7 10 trading_db

-- A request of a lock, a sweep, and the same transfer by the same user again.
abbrev later : FxDb desk
later =
    (sweep_expired_locks desk 12 50
      (lock_rate desk 8 10
        (record { source_currency = usd; target_currency = eur; source_amount = twelve })
        traded.1).1).1

transfer-once_example :
    Used desk 7 10 order (returned traded runs).0 trading_db traded.1
    × ((e : Exception) × (execute_international_transfer desk 13 10 order later ≡ (err e, later)))
transfer-once_example =
    transfer-once desk 7 10 order trading_db (returned traded runs).1
      (calls
        (locking 8 10
          (record { source_currency = usd; target_currency = eur; source_amount = twelve }))
        (calls (sweeping 12 50) ended))
      13 10 order refl

sweep_expired_locks-Swept_example :
    Swept desk 99 trading_db.locks (sweep_expired_locks desk 99 50 trading_db).1.locks
sweep_expired_locks-Swept_example = sweep_expired_locks-Swept desk 99 50 trading_db
