-- ===== src/Fx/Settlement.antt =====
-- What an international transfer does to the money of the accounts.
use fintech_nova_pay.Common.{ℕ, ◌≡◌, refl, inl, inr, true, some, List, Option-cases, arith}
use fintech_nova_pay.Common.Int.{ℤ}
use fintech_nova_pay.Common.Result.{ok, Result-cases, or_throw-eq-ok}
use fintech_nova_pay.Common.Dict.{elem}
use fintech_nova_pay.Common.Text.{trim}
use fintech_nova_pay.Accounts.Entity.{Currency}
use fintech_nova_pay.Ledger.Lines.{distinct}
use fintech_nova_pay.Ledger.Conservation.{total}
use fintech_nova_pay.Ledger.Outcome.{post-total}
use fintech_nova_pay.Ledger.Posting.{post_with_shared_manager}
use fintech_nova_pay.Ledger.Store.{Inserted-cases}
use fintech_nova_pay.Fx.Entity.{FxRateLock, FxTrade, CreateInternationalTransferDto}
use fintech_nova_pay.Fx.Store.{FxStore, FxDb, trade_with_id, enqueue_fx_event}
use fintech_nova_pay.Fx.Locks.{assert_lock_consumable_with_lock}
use fintech_nova_pay.Fx.Transfer.{
  transfer_entries, new_trade, consume_lock, settlement_account_id, ledger_dto, finish_trade,
  settle, find_settlements, insert_trade, consume, transfer_in_transaction,
  execute_international_transfer,
}

module _ (S : FxStore) (c : Currency) (ks : List ℕ) (dto : CreateInternationalTransferDto)
    (d : distinct ks ≡ true) (s : elem dto.source_account_id ks ≡ true)
    (t : elem dto.destination_account_id ks ≡ true)
    (house : (x : Currency) (a : ℕ) → S.settlement x ≡ some a → elem a ks ≡ true) where
  open S use {ledger as L, trades as T, locks as K}

  abbrev held : FxDb S → ℤ
  held db = total L.accounts c ks db.ledger.accounts

  settle-total :
      (now user : ℕ) (lock : FxRateLock) (trade : FxTrade) (source target : ℕ) (db : FxDb S)
      {x : FxTrade} {db' : FxDb S}
      → elem source ks ≡ true
      → elem target ks ≡ true
      → settle S now user dto lock trade source target db ≡ (ok x, db')
      → held db' ≡ held db
  unfolding settle finish_trade ledger_dto transfer_entries enqueue_fx_event
  settle-total now user lock trade source target db {x} {db'} p q h =
      let post = ledger_dto S dto lock trade source target in
      let done = post_with_shared_manager L now post (trim post.correlation_id) db.ledger in
      elim (Result-cases done.0) [
        | inr (e, r) ↦ absurd (ground (arith, r, h))
        | inl (y, r) ↦
            let same =
              post-total L c ks now post (trim post.correlation_id) db.ledger {r = y} {db' = done.1}
                d (rw (s, p, q, t) refl) (ground (arith, r)) in
            ground (arith, r, h, same)
      ]

  settlement-held : (x : Currency) {a : ℕ} → settlement_account_id S x ≡ ok a → elem a ks ≡ true
  unfolding settlement_account_id
  settlement-held x {a} h = house x a (or_throw-eq-ok (S.settlement x) _ h)

  find_settlements-total :
      (now user : ℕ) (lock : FxRateLock) (trade : FxTrade) (db : FxDb S) {x : FxTrade}
      {db' : FxDb S}
      → find_settlements S now user dto lock trade db ≡ (ok x, db')
      → held db' ≡ held db
  unfolding find_settlements
  find_settlements-total now user lock trade db {x} {db'} h =
      elim (Result-cases (settlement_account_id S lock.source_currency)) [
        | inr (e, f) ↦ absurd (ground (arith, f, h))
        | inl (source, f) ↦ elim (Result-cases (settlement_account_id S lock.target_currency)) [
          | inr (e, g) ↦ absurd (ground (arith, f, g, h))
          | inl (target, g) ↦
              settle-total now user lock trade source target db {x = x} {db' = db'}
                (settlement-held lock.source_currency f) (settlement-held lock.target_currency g)
                (ground (arith, f, g, h))
        ]
      ]

  consume-total :
      (now user : ℕ) (lock : FxRateLock) (db : FxDb S) {x : FxTrade} {db' : FxDb S}
      → consume S now user dto lock db ≡ (ok x, db')
      → held db' ≡ held db
  unfolding consume insert_trade
  consume-total now user lock db {x} {db'} h =
      elim (Option-cases (T.find_by_lock lock.id db.trades)) [
        | inr (y, f) ↦ absurd (ground (arith, f, h))
        | inl f ↦ elim (Option-cases (S.multiply dto.amount lock.locked_rate 4)) [
          | inl m ↦ absurd (ground (arith, f, m, h))
          | inr (amount, m) ↦
              let used = consume_lock now lock in
              let row = new_trade user dto used amount in
              elim (Inserted-cases (T.insert row db.trades)) [
                | inr (inl (r, i)) ↦ absurd (ground (arith, f, m, i, h))
                | inr (inr i) ↦ absurd (ground (arith, f, m, i, h))
                | inl (k, r, i) ↦
                    find_settlements-total now user used (trade_with_id k row)
                      (record db { locks = K.table.save used db.locks; trades = r }) {x = x}
                      {db' = db'} (ground (arith, f, m, i, h))
              ]
        ]
      ]

  -- A transfer, whether it returns or throws, keeps the money of every currency that a set of
  -- accounts holds, if the set has the source, the destination and every settlement account.
  pub transfer-total :
      (now user : ℕ) (db : FxDb S)
      → total L.accounts c ks (execute_international_transfer S now user dto db).1.ledger.accounts
        ≡ total L.accounts c ks db.ledger.accounts
  unfolding execute_international_transfer transfer_in_transaction
  transfer-total now user db =
      elim (Result-cases
        (assert_lock_consumable_with_lock S now user dto.rate_lock_id dto.amount db)) [
          | inr (e, a) ↦ ground (arith, a)
          | inl (lock, a) ↦ elim (Result-cases (consume S now user dto lock db).0) [
            | inr (e, x) ↦ ground (arith, a, x)
            | inl (y, x) ↦
                let run = consume S now user dto lock db in
                let same =
                  consume-total now user lock db {x = y} {db' = run.1} (ground (arith, x)) in
                ground (arith, a, x, same)
          ]
        ]
