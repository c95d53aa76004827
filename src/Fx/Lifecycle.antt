-- ===== src/Fx/Lifecycle.antt =====
-- What an international transfer does to its rate lock, and what it meets when the lock is used up.
use fintech_nova_pay.Common.{
  ℕ, ◌≡◌, refl, ◌∙◌, ap, ◌==◌, ==→eq, leb, inl, inr, true, false, some, Bool-cases, Option-cases,
  arith,
}
use fintech_nova_pay.Common.Result.{ok, err, Exception, Result-cases}
use fintech_nova_pay.Common.Action.{transaction-eq-ok}
use fintech_nova_pay.Common.Text.{Text, trim}
use fintech_nova_pay.Ledger.Store.{Inserted-cases}
use fintech_nova_pay.Ledger.Posting.{post_with_shared_manager}
use fintech_nova_pay.Fx.Entity.{
  FxRateLock, FxTrade, FxTradeStatus, CreateInternationalTransferDto, is_active_lock,
}
use fintech_nova_pay.Fx.Store.{FxStore, FxDb, trade_with_id, enqueue_fx_event}
use fintech_nova_pay.Fx.Locks.{check_consumable, assert_lock_consumable_with_lock}
use fintech_nova_pay.Fx.Transfer.{
  consume_lock, new_trade, settlement_account_id, ledger_dto, finish_trade, settle,
  find_settlements, insert_trade, consume, transfer_in_transaction, execute_international_transfer,
}

-- A lock that passed the checks is the one that was found, the caller's, active and in time.
check_consumable-passed :
    (now user : ℕ) (amount : Text) (lock : FxRateLock) {l : FxRateLock}
    → check_consumable now user amount lock ≡ ok l
    → (l ≡ lock)
      × (lock.user_id ≡ user)
      × (is_active_lock lock.status ≡ true)
      × (leb lock.expires_at now ≡ false)
unfolding check_consumable
check_consumable-passed now user amount lock h = elim (Bool-cases (lock.user_id == user)) [
  | inr e ↦ absurd (ground (arith, e, h))
  | inl e ↦ elim (Bool-cases (is_active_lock lock.status)) [
    | inr a ↦ absurd (ground (arith, e, a, h))
    | inl a ↦ elim (Bool-cases (leb lock.expires_at now)) [
      | inl x ↦ absurd (ground (arith, e, a, x, h))
      | inr x ↦ (ground (arith, e, a, x, h), ==→eq lock.user_id user e, a, x)
    ]
  ]
]

-- A lock that is not active passes no check.
check_consumable-inactive :
    (now user : ℕ) (amount : Text) (lock : FxRateLock)
    → is_active_lock lock.status ≡ false
    → (e : Exception) × (check_consumable now user amount lock ≡ err e)
check_consumable-inactive now user amount lock a =
    elim (Result-cases (check_consumable now user amount lock)) [
      | inr (e, p) ↦ (e, p)
      | inl (l, p) ↦
          let passed = check_consumable-passed now user amount lock p in
          absurd (ground (arith, a, passed.2))
    ]

pub consume_lock-id : (now : ℕ) (lock : FxRateLock) → (consume_lock now lock).id ≡ lock.id
unfolding consume_lock
consume_lock-id now lock = refl

pub consume_lock-inactive :
    (now : ℕ) (lock : FxRateLock) → is_active_lock (consume_lock now lock).status ≡ false
unfolding consume_lock
consume_lock-inactive now lock = refl

module _ (S : FxStore) where
  open S use {ledger as L, trades as T, locks as K}

  settle-locks :
      (now user : ℕ) (dto : CreateInternationalTransferDto) (lock : FxRateLock) (trade : FxTrade)
      (db : FxDb S) {x : FxTrade} {db' : FxDb S}
      → find_settlements S now user dto lock trade db ≡ (ok x, db')
      → (db'.locks ≡ db.locks)
        × (x.status ≡ FxTradeStatus.completed)
        × (x.rate_lock_id ≡ trade.rate_lock_id)
  unfolding find_settlements settle finish_trade enqueue_fx_event
  settle-locks now user dto lock trade db {x} {db'} h =
      elim (Result-cases (settlement_account_id S lock.source_currency)) [
        | inr (e, f) ↦ absurd (ground (arith, f, h))
        | inl (source, f) ↦ elim (Result-cases (settlement_account_id S lock.target_currency)) [
          | inr (e, g) ↦ absurd (ground (arith, f, g, h))
          | inl (target, g) ↦
              let post = ledger_dto S dto lock trade source target in
              elim (Result-cases
                (post_with_shared_manager L now post (trim post.correlation_id) db.ledger).0) [
                  | inr (e, r) ↦ absurd (ground (arith, f, g, r, h))
                  | inl (y, r) ↦ (
                    ground (arith, f, g, r, h),
                    ground (arith, f, g, r, h),
                    ground (arith, f, g, r, h),
                  )
                ]
        ]
      ]

  -- What a transfer that returned has found and left.
  pub record Used (now user : ℕ) (dto : CreateInternationalTransferDto) (x : FxTrade)
      (db db' : FxDb S) : Type 0 where
    pub lock : FxRateLock
    pub found : K.table.find dto.rate_lock_id db.locks ≡ some lock
    pub owner : lock.user_id ≡ user
    pub was_active : is_active_lock lock.status ≡ true
    pub in_time : leb lock.expires_at now ≡ false
    pub left : db'.locks ≡ K.table.save (consume_lock now lock) db.locks
    pub completed : x.status ≡ FxTradeStatus.completed
    pub of_lock : x.rate_lock_id ≡ dto.rate_lock_id

  consume-left :
      (now user : ℕ) (dto : CreateInternationalTransferDto) (lock : FxRateLock) (db : FxDb S)
      {x : FxTrade} {db' : FxDb S}
      → consume S now user dto lock db ≡ (ok x, db')
      → (db'.locks ≡ K.table.save (consume_lock now lock) db.locks)
        × (x.status ≡ FxTradeStatus.completed)
        × (x.rate_lock_id ≡ lock.id)
  unfolding consume insert_trade new_trade
  consume-left now user dto lock db {x} {db'} h =
      elim (Option-cases (T.find_by_lock lock.id db.trades)) [
        | inr (y, f) ↦ absurd (ground (arith, f, h))
        | inl f ↦ elim (Option-cases (S.multiply dto.amount lock.locked_rate 4)) [
          | inl m ↦ absurd (ground (arith, f, m, h))
          | inr (amount, m) ↦
              let used = consume_lock now lock in
              let row = new_trade user dto used amount in
              elim (Inserted-cases (T.insert row db.trades)) [
                | inr (inl (r, i)) ↦ absurd (ground (arith, f, m, i, h))
                | inr (inr i) ↦ absurd (ground (arith, f, m, i, h))
                | inl (k, r, i) ↦
                    let (a, b, z) =
                      settle-locks now user dto used (trade_with_id k row)
                        (record db { locks = K.table.save used db.locks; trades = r }) {x = x}
                        {db' = db'} (ground (arith, f, m, i, h)) in
                    (a, b, z ∙ consume_lock-id now lock)
              ]
        ]
      ]

  pub transfer-Used :
      (now user : ℕ) (dto : CreateInternationalTransferDto) (db : FxDb S) {x : FxTrade}
      {db' : FxDb S}
      → execute_international_transfer S now user dto db ≡ (ok x, db')
      → Used now user dto x db db'
  unfolding execute_international_transfer transfer_in_transaction assert_lock_consumable_with_lock
  transfer-Used now user dto db {x} {db'} h =
      let run =
        transaction-eq-ok (transfer_in_transaction S now user dto) db {a = x} {s' = db'} h in
      elim (Option-cases (K.table.find dto.rate_lock_id db.locks)) [
        | inl f ↦ absurd (ground (arith, f, run))
        | inr (lock, f) ↦ elim (Result-cases (check_consumable now user dto.amount lock)) [
          | inr (e, p) ↦ absurd (ground (arith, f, p, run))
          | inl (l, p) ↦
              let (is, owner, was, time) = check_consumable-passed now user dto.amount lock p in
              let (left, done, of) =
                consume-left now user dto l db {x = x} {db' = db'} (ground (arith, f, p, run)) in
              record {
                lock = lock;
                found = f;
                owner = owner;
                was_active = was;
                in_time = time;
                left = left ∙ ap (λ l. K.table.save (consume_lock now l) db.locks) is;
                completed = done;
                of_lock = of ∙ ap (λ l. l.id) is ∙ K.table.find-key dto.rate_lock_id db.locks f;
              }
        ]
      ]

  pub refused :
      (now user : ℕ) (dto : CreateInternationalTransferDto) (db : FxDb S) {lock : FxRateLock}
      → K.table.find dto.rate_lock_id db.locks ≡ some lock
      → is_active_lock lock.status ≡ false
      → (e : Exception) × (execute_international_transfer S now user dto db ≡ (err e, db))
  unfolding execute_international_transfer transfer_in_transaction assert_lock_consumable_with_lock
  refused now user dto db {lock} f a =
      let (e, c) = check_consumable-inactive now user dto.amount lock a in (e, ground (arith, f, c))
