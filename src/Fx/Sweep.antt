-- ===== src/Fx/Sweep.antt =====
-- `sweepExpiredLocks` of modules/fx/service/fx-lock-expiry-sweep.service.ts.
use fintech_nova_pay.Common.{ℕ, suc, ltb, not, ◌||◌, none, List, [], ◌∷◌, if◌then◌else◌}
use fintech_nova_pay.Outbox.Entity.{fx_rate_lock_expired, Payload, Value}
use fintech_nova_pay.Fx.Entity.{FxRateLock, FxLockStatus, is_active_lock, lock_status_name}
use fintech_nova_pay.Fx.Store.{FxStore, FxDb, enqueue_fx_event}
use fintech_nova_pay.Fx.Locks.{optional_word}

-- `Math.max(1, Math.min(limit, 200))`
unfoldable pub cap : ℕ → ℕ
cap limit = if ltb 200 limit then 200 else if ltb limit 1 then 1 else limit

abbrev pub expired_payload : ℕ → FxLockStatus → FxRateLock → Payload
expired_payload now before saved =
    ("eventName", Value.word "fx.rate.lock.expired")
    ∷ ("rateLockId", Value.id saved.id)
    ∷ ("userId", Value.id saved.user_id)
    ∷ ("reference", Value.null)
    ∷ ("correlationId", Value.null)
    ∷ ("idempotencyKey", Value.null)
    ∷ ("providerReference", optional_word saved.provider_reference)
    ∷ ("statusAtExpiry", Value.word (lock_status_name before))
    ∷ ("expiresAt", Value.time saved.expires_at)
    ∷ ("occurredAt", Value.time now)
    ∷ []

unfoldable pub expire_lock : FxRateLock → FxRateLock
expire_lock lock = record lock { status = FxLockStatus.expired }

module _ (S : FxStore) where
  open S use {locks as K}

  -- One round of the loop: the count and the tables.
  unfoldable pub sweep_lock : ℕ → FxRateLock → ℕ × FxDb S → ℕ × FxDb S
  sweep_lock now lock (n, db) =
      if not (is_active_lock lock.status) || ltb now lock.expires_at
      then (n, db)
      else let saved = expire_lock lock in
        (
          suc n,
          enqueue_fx_event S now fx_rate_lock_expired none (expired_payload now lock.status saved)
              (record db { locks = K.table.save saved db.locks }),
        )

  unfoldable pub sweep_locks : ℕ → List FxRateLock → ℕ × FxDb S → ℕ × FxDb S
  sweep_locks now [] x = x
  sweep_locks now (l ∷ ls) x = sweep_locks now ls (sweep_lock now l x)

  -- One transaction, in which nothing throws.
  unfoldable pub sweep_expired_locks : ℕ → ℕ → FxDb S → ℕ × FxDb S
  sweep_expired_locks now limit db =
      sweep_locks now (K.find_expired now (cap limit) db.locks) (0, db)
