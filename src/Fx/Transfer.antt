-- ===== src/Fx/Transfer.antt =====
-- international-transfer-orchestrator.service.ts of modules/fx/service.
use fintech_nova_pay.Common.{
  ℕ, leb, length, take, Option, none, some, List, [], ◌∷◌, ◌++◌, if◌then◌else◌,
}
use fintech_nova_pay.Common.Result.{Result, ok, err, bad_request, conflict, query_failed, or_throw}
use fintech_nova_pay.Common.Action.{Action, transaction}
use fintech_nova_pay.Common.Text.{Text, trim}
use fintech_nova_pay.Accounts.Entity.{Currency, currency_name}
use fintech_nova_pay.Outbox.Entity.{
  fx_trade_executed, fx_international_transfer_created, Payload, Value,
}
use fintech_nova_pay.Ledger.Entity.{
  debit, credit, fx_conversion, LedgerEntryType, PostLedgerEntryLineDto, PostLedgerTransactionDto,
}
use fintech_nova_pay.Ledger.Store.{stored, duplicate, broken}
use fintech_nova_pay.Ledger.Posting.{post_with_shared_manager}
use fintech_nova_pay.Fx.Entity.{
  FxRateLock, FxLockStatus, FxTrade, FxTradeStatus, CreateInternationalTransferDto, provider_name,
  trade_status_name,
}
use fintech_nova_pay.Fx.Store.{FxStore, FxDb, NewTrade, trade_with_id, enqueue_fx_event}
use fintech_nova_pay.Fx.Locks.{assert_lock_consumable_with_lock, optional_word}

-- `fx:tr:` and the trade's identifier
unfoldable pub transfer_correlation : Text → Text
transfer_correlation id = b'f' ∷ b'x' ∷ b':' ∷ b't' ∷ b'r' ∷ b':' ∷ id

-- At most 512 characters, an ellipsis in place of the rest.
unfoldable pub build_fx_ledger_memo : Text → Text
build_fx_ledger_memo s = if leb (length s) 512 then s else take 509 s ++ b'.' ∷ b'.' ∷ b'.' ∷ []

unfoldable pub new_trade : ℕ → CreateInternationalTransferDto → FxRateLock → Text → NewTrade
new_trade user dto lock target_amount = record {
  user_id = user;
  rate_lock_id = lock.id;
  source_amount = dto.amount;
  source_currency = lock.source_currency;
  target_amount = target_amount;
  target_currency = lock.target_currency;
  executed_rate = lock.locked_rate;
  provider = lock.provider;
  provider_reference = lock.provider_reference;
  status = FxTradeStatus.pending;
}

abbrev leg : ℕ → LedgerEntryType → Text → Currency → PostLedgerEntryLineDto
leg account side amount currency = record {
  account_id = account;
  entry_type = side;
  amount = amount;
  currency = currency;
  line_number = none;
  memo = none;
}

unfoldable pub transfer_entries :
    CreateInternationalTransferDto → FxRateLock → Text → ℕ → ℕ → List PostLedgerEntryLineDto
transfer_entries dto lock target_amount source_settlement target_settlement =
    leg dto.source_account_id debit dto.amount lock.source_currency
    ∷ leg source_settlement credit dto.amount lock.source_currency
    ∷ leg target_settlement debit target_amount lock.target_currency
    ∷ leg dto.destination_account_id credit target_amount lock.target_currency
    ∷ []

abbrev pub optional_text : Option Text → Value
optional_text none = Value.null
optional_text (some s) = Value.text s

abbrev executed_payload : ℕ → ℕ → CreateInternationalTransferDto → FxRateLock → FxTrade → Payload
executed_payload now user dto lock trade =
    ("eventName", Value.word "fx.trade.executed")
    ∷ ("tradeId", Value.id trade.id)
    ∷ ("rateLockId", Value.id lock.id)
    ∷ ("userId", Value.id user)
    ∷ ("reference", Value.text dto.reference)
    ∷ ("correlationId", optional_text dto.correlation_id)
    ∷ ("idempotencyKey", Value.text dto.idempotency_key)
    ∷ ("providerReference", optional_word trade.provider_reference)
    ∷ ("sourceAmount", Value.text trade.source_amount)
    ∷ ("sourceCurrency", Value.word (currency_name trade.source_currency))
    ∷ ("targetAmount", Value.text trade.target_amount)
    ∷ ("targetCurrency", Value.word (currency_name trade.target_currency))
    ∷ ("executedRate", Value.text trade.executed_rate)
    ∷ ("provider", Value.word (provider_name trade.provider))
    ∷ ("status", Value.word (trade_status_name trade.status))
    ∷ ("occurredAt", Value.time now)
    ∷ []

abbrev created_payload : ℕ → ℕ → CreateInternationalTransferDto → FxRateLock → FxTrade → Payload
created_payload now user dto lock trade =
    ("eventName", Value.word "fx.international_transfer.created")
    ∷ ("transferId", Value.id trade.id)
    ∷ ("rateLockId", Value.id lock.id)
    ∷ ("userId", Value.id user)
    ∷ ("reference", Value.text dto.reference)
    ∷ ("correlationId", optional_text dto.correlation_id)
    ∷ ("idempotencyKey", Value.text dto.idempotency_key)
    ∷ ("idempotencyScopeKey", optional_text dto.idempotency_scope_key)
    ∷ ("sourceAccountId", Value.id dto.source_account_id)
    ∷ ("destinationAccountId", Value.id dto.destination_account_id)
    ∷ ("amount", Value.text dto.amount)
    ∷ ("sourceCurrency", Value.word (currency_name lock.source_currency))
    ∷ ("targetCurrency", Value.word (currency_name lock.target_currency))
    ∷ ("occurredAt", Value.time now)
    ∷ []

unfoldable pub consume_lock : ℕ → FxRateLock → FxRateLock
consume_lock now lock = record lock { status = FxLockStatus.consumed; consumed_at = some now }

module _ (S : FxStore) where
  open S use {locks as K, trades as T}

  unfoldable pub settlement_account_id : Currency → Result ℕ
  settlement_account_id currency =
      or_throw (S.settlement currency) (bad_request "FX ledger settlement is not configured")

  unfoldable pub ledger_dto :
      CreateInternationalTransferDto → FxRateLock → FxTrade → ℕ → ℕ → PostLedgerTransactionDto
  ledger_dto dto lock trade source_settlement target_settlement = record {
    type = fx_conversion;
    reverses_transaction_id = none;
    correlation_id = transfer_correlation (S.uuid_text trade.id);
    memo = some (build_fx_ledger_memo (S.memo_json trade lock dto));
    entries = transfer_entries dto lock trade.target_amount source_settlement target_settlement;
  }

  -- The trade as `COMPLETED` and the two events.
  unfoldable pub finish_trade :
      ℕ → ℕ → CreateInternationalTransferDto → FxRateLock → FxTrade → Action (FxDb S) FxTrade
  finish_trade now user dto lock trade db =
      let done = record trade { status = FxTradeStatus.completed } in
      let saved : FxDb S = record db { trades = T.table.save done db.trades } in
      (
        ok done,
        enqueue_fx_event S now fx_international_transfer_created dto.correlation_id
            (created_payload now user dto lock done)
            (enqueue_fx_event S now fx_trade_executed dto.correlation_id
              (executed_payload now user dto lock done) saved),
      )

  unfoldable pub settle :
      ℕ
      → ℕ
      → CreateInternationalTransferDto
      → FxRateLock
      → FxTrade
      → ℕ
      → ℕ
      → Action (FxDb S) FxTrade
  settle now user dto lock trade source_settlement target_settlement db =
      let post = ledger_dto dto lock trade source_settlement target_settlement in
      let (posted, ledger) =
        post_with_shared_manager S.ledger now post (trim post.correlation_id) db.ledger in
      let db₁ : FxDb S = record db { ledger = ledger } in
      elim posted [ err e ↦ (err e, db₁) | ok p ↦ finish_trade now user dto lock trade db₁ ]

  unfoldable pub find_settlements :
      ℕ → ℕ → CreateInternationalTransferDto → FxRateLock → FxTrade → Action (FxDb S) FxTrade
  find_settlements now user dto lock trade db = elim (settlement_account_id lock.source_currency) [
    | err e ↦ (err e, db)
    | ok source ↦ elim (settlement_account_id lock.target_currency) [
      | err e ↦ (err e, db)
      | ok target ↦ settle now user dto lock trade source target db
    ]
  ]

  unfoldable pub insert_trade :
      ℕ → ℕ → CreateInternationalTransferDto → FxRateLock → Text → Action (FxDb S) FxTrade
  insert_trade now user dto lock target_amount db =
      let row = new_trade user dto lock target_amount in
      elim (T.insert row db.trades) [
        | broken ↦ (err query_failed, db)
        | duplicate t ↦ (err query_failed, db)
        | stored i t ↦
            find_settlements now user dto lock (trade_with_id i row) (record db { trades = t })
      ]

  unfoldable pub consume :
      ℕ → ℕ → CreateInternationalTransferDto → FxRateLock → Action (FxDb S) FxTrade
  consume now user dto lock db = elim (T.find_by_lock lock.id db.trades) [
    | some existing ↦ (err (conflict "Rate lock already consumed"), db)
    | none ↦ elim (S.multiply dto.amount lock.locked_rate 4) [
      | none ↦ (err (bad_request "Invalid amount or rate for FX conversion"), db)
      | some target_amount ↦
          let used = consume_lock now lock in
          insert_trade now user dto used target_amount
            (record db { locks = K.table.save used db.locks })
    ]
  ]

  unfoldable pub transfer_in_transaction :
      ℕ → ℕ → CreateInternationalTransferDto → Action (FxDb S) FxTrade
  transfer_in_transaction now user dto db =
      elim (assert_lock_consumable_with_lock S now user dto.rate_lock_id dto.amount db) [
        | err e ↦ (err e, db)
        | ok lock ↦ consume now user dto lock db
      ]

  unfoldable pub execute_international_transfer :
      ℕ → ℕ → CreateInternationalTransferDto → Action (FxDb S) FxTrade
  execute_international_transfer now user dto = transaction (transfer_in_transaction now user dto)
