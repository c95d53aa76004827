-- ===== src/Fx/Locks.antt =====
-- fx.service.ts and fx-provider.service.ts of modules/fx/service.
use fintech_nova_pay.Common.{
  ℕ, ◌+◌, ◌-◌, ◌/◌, ◌==◌, leb, Bool, not, Option, none, some, String, [], ◌∷◌, if◌then◌else◌,
}
use fintech_nova_pay.Common.Result.{
  Result, ok, err, bad_request, forbidden, not_found, service_unavailable, query_failed, throw_if,
  or_throw, ◌>>=◌, ◌>>◌,
}
use fintech_nova_pay.Common.Action.{Action, transaction, throw}
use fintech_nova_pay.Common.Text.{Text, same_text}
use fintech_nova_pay.Accounts.Entity.{Currency, same_currency, currency_name}
use fintech_nova_pay.Outbox.Entity.{fx_rate_locked, Payload, Value}
use fintech_nova_pay.Ledger.Store.{stored, duplicate, broken}
use fintech_nova_pay.Fx.Entity.{
  FxRateLock, FxLockStatus, FxProvider, LockRateDto, is_active_lock, provider_name,
}
use fintech_nova_pay.Fx.Store.{FxStore, FxDb, NewLock, lock_with_id, enqueue_fx_event}

pub record FxLiveQuote : Type 0 where
  pub rate : Text
  pub provider_reference : Option String
  pub provider : FxProvider

-- `1.00000000`
abbrev one8 : Text
one8 = b'1' ∷ b'.' ∷ b'0' ∷ b'0' ∷ b'0' ∷ b'0' ∷ b'0' ∷ b'0' ∷ b'0' ∷ b'0' ∷ []

unfoldable pub fetch_live_rate : Bool → Currency → Currency → Result FxLiveQuote
fetch_live_rate mock_enabled source target =
    if same_currency source target
    then err (service_unavailable "FX provider does not quote same-currency pairs")
    else if mock_enabled
    then ok (record {
      rate = one8;
      provider_reference = some "MOCK_EXPLICIT_ENV_FX_PROVIDER_MOCK";
      provider = FxProvider.mock;
    })
    else err (service_unavailable "FX live rate provider unavailable (integration pending)")

pub record FxLockStatusView : Type 0 where
  pub lock_id : ℕ
  pub status : FxLockStatus
  pub locked_rate : Text
  pub expires_at : ℕ
  pub consumed_at : Option ℕ
  pub time_remaining_seconds : ℕ
  pub provider : FxProvider

-- `Math.max(0, Math.floor((expires - now) / 1000))`: a subtraction that stops at zero is the same.
unfoldable pub time_remaining_seconds : ℕ → ℕ → ℕ
time_remaining_seconds expires now = (expires - now) / 1000

abbrev view_of : ℕ → FxRateLock → FxLockStatusView
view_of now lock = record {
  lock_id = lock.id;
  status = lock.status;
  locked_rate = lock.locked_rate;
  expires_at = lock.expires_at;
  consumed_at = lock.consumed_at;
  time_remaining_seconds = time_remaining_seconds lock.expires_at now;
  provider = lock.provider;
}

-- What `lockRate` returns.
pub record LockedRate : Type 0 where
  pub lock_id : ℕ
  pub locked_rate : Text
  pub expires_at : ℕ
  pub time_remaining_seconds : ℕ
  pub provider : FxProvider

abbrev locked_rate_of : ℕ → FxRateLock → LockedRate
locked_rate_of now saved = record {
  lock_id = saved.id;
  locked_rate = saved.locked_rate;
  expires_at = saved.expires_at;
  time_remaining_seconds = time_remaining_seconds saved.expires_at now;
  provider = saved.provider;
}

abbrev pub optional_word : Option String → Value
optional_word none = Value.null
optional_word (some s) = Value.word s

abbrev locked_payload : ℕ → FxRateLock → Payload
locked_payload now saved =
    ("eventName", Value.word "fx.rate.locked")
    ∷ ("rateLockId", Value.id saved.id)
    ∷ ("userId", Value.id saved.user_id)
    ∷ ("reference", Value.null)
    ∷ ("correlationId", Value.null)
    ∷ ("idempotencyKey", Value.null)
    ∷ ("providerReference", optional_word saved.provider_reference)
    ∷ ("sourceCurrency", Value.word (currency_name saved.source_currency))
    ∷ ("targetCurrency", Value.word (currency_name saved.target_currency))
    ∷ ("sourceAmount", Value.text saved.source_amount)
    ∷ ("lockedRate", Value.text saved.locked_rate)
    ∷ ("provider", Value.word (provider_name saved.provider))
    ∷ ("expiresAt", Value.time saved.expires_at)
    ∷ ("occurredAt", Value.time now)
    ∷ []

unfoldable pub new_lock : ℕ → ℕ → LockRateDto → FxLiveQuote → NewLock
new_lock now user dto quote = record {
  user_id = user;
  source_currency = dto.source_currency;
  target_currency = dto.target_currency;
  source_amount = dto.source_amount;
  locked_rate = quote.rate;
  provider = quote.provider;
  provider_reference = quote.provider_reference;
  expires_at = now + 60000;
  status = FxLockStatus.active;
}

-- The checks on a lock that was found.
unfoldable pub check_consumable : ℕ → ℕ → Text → FxRateLock → Result FxRateLock
check_consumable now user expected lock = do
  throw_if (not (lock.user_id == user)) (forbidden "Rate lock does not belong to caller")
  throw_if (not (is_active_lock lock.status)) (bad_request "Rate lock is not active")
  throw_if (leb lock.expires_at now) (bad_request "Rate lock has expired")
  throw_if (not (same_text lock.source_amount expected))
      (bad_request "Amount does not match the locked source amount")
  ok lock

-- `findByIdAndUserId`
unfoldable pub owned_by : ℕ → Option FxRateLock → Option FxRateLock
owned_by user none = none
owned_by user (some lock) = if lock.user_id == user then some lock else none

module _ (S : FxStore) where
  open S use {locks as K}

  unfoldable pub insert_lock : ℕ → NewLock → Action (FxDb S) LockedRate
  insert_lock now row db = elim (K.insert row db.locks) [
    | broken ↦ (err query_failed, db)
    | duplicate t ↦ (err query_failed, db)
    | stored i t ↦
        let saved = lock_with_id i row in
        (
          ok (locked_rate_of now saved),
          enqueue_fx_event S now fx_rate_locked none (locked_payload now saved)
              (record db { locks = t }),
        )
  ]

  unfoldable pub lock_rate : ℕ → ℕ → LockRateDto → Action (FxDb S) LockedRate
  lock_rate now user dto =
      elim (fetch_live_rate S.mock_enabled dto.source_currency dto.target_currency) [
        | err e ↦ throw e
        | ok quote ↦ transaction (insert_lock now (new_lock now user dto quote))
      ]

  unfoldable pub validate_lock_for_transfer : ℕ → ℕ → ℕ → Text → FxDb S → Result (Unit {0})
  validate_lock_for_transfer now user lock_id expected db = do
    lock ←
        or_throw (owned_by user (K.table.find lock_id db.locks)) (not_found "Rate lock not found")
    check_consumable now user expected lock >>= λ _. ok tt

  unfoldable pub get_lock_status : ℕ → ℕ → ℕ → FxDb S → Result FxLockStatusView
  get_lock_status now user lock_id db = do
    lock ←
        or_throw (owned_by user (K.table.find lock_id db.locks)) (not_found "Rate lock not found")
    ok (view_of now lock)

  unfoldable pub assert_lock_consumable_with_lock : ℕ → ℕ → ℕ → Text → FxDb S → Result FxRateLock
  assert_lock_consumable_with_lock now user lock_id expected db =
      elim (K.table.find lock_id db.locks) [
        | none ↦ err (not_found "Rate lock not found")
        | some lock ↦ check_consumable now user expected lock
      ]
