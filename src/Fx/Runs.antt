-- ===== src/Fx/Runs.antt =====
-- Histories of rate locks: requests, transfers and sweeps in any order, after a transfer.
use fintech_nova_pay.Common.{
  ℕ, ◌≡◌, ◌==◌, ==-self, true, false, none, some, inl, inr, Option, Option-cases, Bool-cases, arith,
}
use mathlib.Core.Path.{subst}
use fintech_nova_pay.Common.Result.{ok, err, Exception, Result-cases}
use fintech_nova_pay.Common.Action.{transaction}
use fintech_nova_pay.Ledger.Store.{Inserted-cases}
use fintech_nova_pay.Fx.Entity.{
  FxRateLock, FxTrade, LockRateDto, CreateInternationalTransferDto, is_active_lock,
}
use fintech_nova_pay.Fx.Store.{FxStore, FxDb, NewLock, enqueue_fx_event}
use fintech_nova_pay.Fx.Locks.{fetch_live_rate, new_lock, insert_lock, lock_rate}
use fintech_nova_pay.Fx.Sweep.{sweep_expired_locks}
use fintech_nova_pay.Fx.Transfer.{
  consume_lock, transfer_in_transaction, execute_international_transfer,
}
use fintech_nova_pay.Fx.Expiry.{SweptRow, sweep_expired_locks-Swept}
use fintech_nova_pay.Fx.Lifecycle.{
  Used, transfer-Used, refused, consume_lock-id, consume_lock-inactive,
}

-- A row that is there and not active.
abbrev Retired : Option FxRateLock → Type 0
Retired none = ⊥
Retired (some l) = is_active_lock l.status ≡ false

swept-Retired : (now : ℕ) (o o' : Option FxRateLock) → SweptRow now o o' → Retired o → Retired o'
swept-Retired now none o' s r = elim r [ ]
swept-Retired now (some l) none s r = elim s [ ]
swept-Retired now (some l) (some l') (inl e) r = ground (arith, e, r)
swept-Retired now (some l) (some l') (inr (a, t, e)) r = absurd (ground (arith, a, r))

module _ (S : FxStore) where
  open S use {locks as K}

  -- One call of the services, whatever its outcome.
  pub data FxCall (db : FxDb S) : FxDb S → Type 0 where
    locking : (now user : ℕ) (dto : LockRateDto) → FxCall db (lock_rate S now user dto db).1
    transferring :
        (now user : ℕ) (dto : CreateInternationalTransferDto)
        → FxCall db (execute_international_transfer S now user dto db).1
    sweeping : (now limit : ℕ) → FxCall db (sweep_expired_locks S now limit db).1

  pub data FxRun : FxDb S → FxDb S → Type 0 where
    ended : {db : FxDb S} → FxRun db db
    calls : {db db₁ db₂ : FxDb S} → FxCall db db₁ → FxRun db₁ db₂ → FxRun db db₂

  abbrev Spent : ℕ → FxDb S → Type 0
  Spent k db = Retired (K.table.find k db.locks)

  insert_lock-Spent :
      (k now : ℕ) (n : NewLock) (db : FxDb S)
      → Spent k db
      → Spent k (transaction (insert_lock S now n) db).1
  unfolding insert_lock enqueue_fx_event
  insert_lock-Spent k now n db r = elim (Inserted-cases (K.insert n db.locks)) [
    | inr (inl (t, i)) ↦ subst (λ t. Retired (K.table.find k t)) (ground (arith, i)) r
    | inr (inr i) ↦ subst (λ t. Retired (K.table.find k t)) (ground (arith, i)) r
    | inl (j, t, i) ↦ elim (Option-cases (K.table.find k db.locks)) [
      | inl f ↦ absurd (rw f at r)
      | inr (l, f) ↦
          let kept = K.insert-kept n db.locks k i f in
          let there : Retired (K.table.find k t) = rw kept (rw f at r) in
          subst (λ t. Retired (K.table.find k t)) (ground (arith, i)) there
    ]
  ]

  lock_rate-Spent :
      (k now user : ℕ) (dto : LockRateDto) (db : FxDb S)
      → Spent k db
      → Spent k (lock_rate S now user dto db).1
  unfolding lock_rate
  lock_rate-Spent k now user dto db r =
      elim (Result-cases (fetch_live_rate S.mock_enabled dto.source_currency dto.target_currency)) [
        | inr (e, f) ↦ subst (λ t. Retired (K.table.find k t)) (ground (arith, f)) r
        | inl (quote, f) ↦
            subst (λ t. Retired (K.table.find k t)) (ground (arith, f))
              (insert_lock-Spent k now (new_lock now user dto quote) db r)
      ]

  saved-Spent :
      (k now : ℕ) (l : FxRateLock) (t : K.table.Rows)
      → Retired (K.table.find k t)
      → Retired (K.table.find k (K.table.save (consume_lock now l) t))
  saved-Spent k now l t r = elim (Bool-cases ((consume_lock now l).id == k)) [
    | inl same ↦ rw (K.table.find-save k (consume_lock now l) t, same) (consume_lock-inactive now l)
    | inr other ↦ rw (K.table.find-save k (consume_lock now l) t, other) r
  ]

  transfer-Spent :
      (k now user : ℕ) (dto : CreateInternationalTransferDto) (db : FxDb S)
      → Spent k db
      → Spent k (execute_international_transfer S now user dto db).1
  unfolding execute_international_transfer
  transfer-Spent k now user dto db r =
      let body = transfer_in_transaction S now user dto db in
      elim (Result-cases body.0) [
        | inr (e, x) ↦ subst (λ t. Retired (K.table.find k t)) (ground (arith, x)) r
        | inl (t, x) ↦
            let u = transfer-Used S now user dto db {x = t} {db' = body.1} (ground (arith, x)) in
            let there : Spent k body.1 = rw u.left (saved-Spent k now u.lock db.locks r) in
            subst (λ t. Retired (K.table.find k t)) (ground (arith, x)) there
      ]

  call-Spent : (k : ℕ) {db db' : FxDb S} → FxCall db db' → Spent k db → Spent k db'
  call-Spent k {db} (locking now user dto) r = lock_rate-Spent k now user dto db r
  call-Spent k {db} (transferring now user dto) r = transfer-Spent k now user dto db r
  call-Spent k {db} (sweeping now limit) r =
      let after = (sweep_expired_locks S now limit db).1 in
      swept-Retired now (K.table.find k db.locks) (K.table.find k after.locks)
        (sweep_expired_locks-Swept S now limit db k) r

  run-Spent : (k : ℕ) {db db' : FxDb S} → FxRun db db' → Spent k db → Spent k db'
  run-Spent k ended r = r
  run-Spent k (calls c x) r = run-Spent k x (call-Spent k c r)

  used_up_throws :
      (now user : ℕ) (dto : CreateInternationalTransferDto) (db : FxDb S)
      → Spent dto.rate_lock_id db
      → (e : Exception) × (execute_international_transfer S now user dto db ≡ (err e, db))
  used_up_throws now user dto db r = elim (Option-cases (K.table.find dto.rate_lock_id db.locks)) [
    | inl f ↦ absurd (rw f at r)
    | inr (l, f) ↦ refused S now user dto db {lock = l} f (rw f at r)
  ]

  -- A transfer that returned has used an active lock of the caller in time, and gives a completed
  -- trade of it. After it and any further requests of locks, transfers and sweeps, every transfer
  -- with that lock, by whatever user and also a retry of the same command, throws and changes
  -- nothing.
  pub transfer-once :
      (now user : ℕ) (dto : CreateInternationalTransferDto) (db : FxDb S) {x : FxTrade}
      {db' db'' : FxDb S}
      → execute_international_transfer S now user dto db ≡ (ok x, db')
      → FxRun db' db''
      → (now' user' : ℕ) (dto' : CreateInternationalTransferDto)
      → dto'.rate_lock_id ≡ dto.rate_lock_id
      → Used S now user dto x db db'
        × ((e : Exception) × (execute_international_transfer S now' user' dto' db''
              ≡ (err e, db'')))
  transfer-once now user dto db {x} {db'} {db''} h run now' user' dto' same =
      let u = transfer-Used S now user dto db {x = x} {db' = db'} h in
      let after = consume_lock now u.lock in
      let key : (after.id == dto.rate_lock_id) ≡ true =
        rw (consume_lock-id now u.lock, K.table.find-key dto.rate_lock_id db.locks u.found)
          (==-self dto.rate_lock_id) in
      let spent : Spent dto.rate_lock_id db' =
        rw (u.left, K.table.find-save dto.rate_lock_id after db.locks, key)
          (consume_lock-inactive now u.lock) in
      let later : Spent dto'.rate_lock_id db'' = rw same (run-Spent dto.rate_lock_id run spent) in
      (u, used_up_throws now' user' dto' db'' later)
