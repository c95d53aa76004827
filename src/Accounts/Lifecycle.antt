-- ===== src/Accounts/Lifecycle.antt =====
-- What the lifecycle operations of an account promise.
use fintech_nova_pay.Common.{
  ℕ, ◌≡◌, ap, ◌==◌, ==→eq, inl, inr, some, List, Bool-cases, Option-cases, arith,
}
use mathlib.Core.Path.{fun_ext}
use fintech_nova_pay.Common.Result.{ok, err, conflict}
use fintech_nova_pay.Accounts.Entity.{Account, AccountStatus, Currency}
use fintech_nova_pay.Outbox.Entity.{OutboxEvent, OutboxRoutingKey}
use fintech_nova_pay.Ledger.Projected.{value}
use fintech_nova_pay.Ledger.Conservation.{sum_over, total}
use fintech_nova_pay.Accounts.Service.{
  AccountStore, AccountDb, CreateAccountDto, new_account, account_with_id, create_account,
  get_account_by_id, get_account_by_id_for_owner, update_account_status,
}

abbrev pub routing_key : OutboxEvent → OutboxRoutingKey
routing_key e = e.routing_key

module _ (S : AccountStore) where
  open S use {table as A}

  value-save :
      (c : Currency) (id : ℕ) (a : Account) (status : AccountStatus) (t : A.Rows)
      → A.find id t ≡ some a
      → (k : ℕ)
      → value c (A.find k (A.save (record a { status = status }) t)) ≡ value c (A.find k t)
  value-save c id a status t f k =
      let saved = A.find-save k (record a { status = status }) t in
      let key = A.find-key id t f in
      elim (Bool-cases (a.id == k)) [
        | inl e ↦ let same = ==→eq a.id k e in grind (arith, saved, e, same, key, f)
        | inr e ↦ ground (arith, saved, e)
      ]

  -- A number is given out once: after an account was created, a second creation under the same
  -- number throws a conflict and changes nothing.
  pub create_account-twice :
      (now : ℕ) (dto : CreateAccountDto) (db : AccountDb A.Rows) {a : Account}
      {db' : AccountDb A.Rows}
      → create_account S now dto db ≡ (ok a, db')
      → (now' : ℕ) (dto' : CreateAccountDto) → dto'.account_number ≡ dto.account_number
      → create_account S now' dto' db' ≡ (err (conflict "Account number already in use"), db')
  unfolding create_account new_account
  create_account-twice now dto db h now' dto' e =
      elim (Option-cases (S.find_by_number dto.account_number db.accounts)) [
        | inr (x, f) ↦ absurd (ground (arith, f, h))
        | inl f ↦
            let there =
              S.find_by_number-save (account_with_id (S.new_id db.accounts) (new_account dto))
                db.accounts in
            ground (arith, f, h, e, there)
      ]

  -- A reader gets an account only if it is the reader's own.
  pub get_account_by_id_for_owner-owned :
      (id owner : ℕ) (db : AccountDb A.Rows) {a : Account}
      → get_account_by_id_for_owner S id owner db ≡ ok (some a)
      → (a.user_id ≡ owner) × (a.id ≡ id)
  unfolding get_account_by_id_for_owner get_account_by_id
  get_account_by_id_for_owner-owned id owner db {a} h =
      elim (Option-cases (A.find id db.accounts)) [
        | inl f ↦ absurd (ground (arith, f, h))
        | inr (x, f) ↦ elim (Bool-cases (x.user_id == owner)) [
          | inr o ↦ absurd (ground (arith, f, o, h))
          | inl o ↦
              let key = A.find-key id db.accounts f in
              let own = ==→eq x.user_id owner o in
              (ground (arith, f, o, h, own), ground (arith, f, o, h, key))
        ]
      ]

  -- A change of status moves no money.
  pub update_account_status-total :
      (c : Currency) (ks : List ℕ) (now id : ℕ) (status : AccountStatus) (db : AccountDb A.Rows)
      → total A c ks (update_account_status S now id status db).1.accounts
        ≡ total A c ks db.accounts
  unfolding update_account_status
  update_account_status-total c ks now id status db = elim (Option-cases (A.find id db.accounts)) [
    | inl f ↦ ground (arith, f)
    | inr (a, f) ↦
        let same = ap (λ g. sum_over g ks) (fun_ext (value-save c id a status db.accounts f)) in
        ground (arith, f, same)
  ]
