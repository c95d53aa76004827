-- ===== src/Payroll/PayoutMoney.antt =====
-- What the payouts of a batch do to the money of the accounts.
use fintech_nova_pay.Common.{
  ℕ, ◌≡◌, refl, ◌∙◌, ap, sym, inl, inr, Bool-cases, true, Option, none, some, List, [], ◌∷◌,
  Option-cases, arith,
}
use fintech_nova_pay.Common.Int.{ℤ}
use fintech_nova_pay.Common.Result.{Exception, Result-cases, ok}
use fintech_nova_pay.Common.Dict.{elem}
use fintech_nova_pay.Common.Text.{trim}
use fintech_nova_pay.Accounts.Entity.{Currency}
use fintech_nova_pay.Ledger.Lines.{distinct}
use fintech_nova_pay.Ledger.Conservation.{total}
use fintech_nova_pay.Ledger.Outcome.{post-total}
use fintech_nova_pay.Ledger.Posting.{post_with_shared_manager}
use fintech_nova_pay.Payroll.Entity.{
  PayrollBatch, PayrollItem, ProcessPayrollBatchDto, is_pending_item,
}
use fintech_nova_pay.Payroll.Store.{PayrollStore, PayrollDb, enqueue_payroll_event}
use fintech_nova_pay.Payroll.Payouts.{
  payout_dto, pay_row, pay_item, mark_item_payout_failed, payout_round, payout_rounds,
}
use fintech_nova_pay.Payroll.Items.{SettledRow, AllSettled, payout_round-items}

-- The employees of all items are among the accounts.
settled_employee :
    (ks : List ℕ) (o o' : Option PayrollItem)
    → SettledRow o o'
    → ((i : PayrollItem) → o ≡ some i → elem i.employee_account_id ks ≡ true)
    → (i : PayrollItem) → o' ≡ some i
    → elem i.employee_account_id ks ≡ true
settled_employee ks none none s h i f = h i f
settled_employee ks none (some j) s h i f = elim s [ ]
settled_employee ks (some j) none s h i f = elim s [ ]
settled_employee ks (some j) (some j') (inl e) h i f = h i (ap some (sym e) ∙ f)
settled_employee ks (some j) (some j') (inr e) h i f =
    let there = h j refl in let same = e.employee in ground (arith, there, same, f)

module _ (S : PayrollStore) (c : Currency) (ks : List ℕ) (d : distinct ks ≡ true) where
  open S use {ledger as L, items as I, batches as B}

  abbrev pub held : PayrollDb S → ℤ
  held db = total L.accounts c ks db.ledger.accounts

  abbrev pub Employs : PayrollDb S → Type 0
  Employs db =
      (k : ℕ) (i : PayrollItem) → I.find k db.items ≡ some i → elem i.employee_account_id ks ≡ true

  pub Employs-settled :
      (db db' : PayrollDb S) → AllSettled S db.items db'.items → Employs db → Employs db'
  Employs-settled db db' s h k =
      settled_employee ks (I.find k db.items) (I.find k db'.items) (s k) (h k)

  pay_row-total :
      (now : ℕ) (dto : ProcessPayrollBatchDto) (header : PayrollBatch) (row : PayrollItem)
      (clearing : ℕ) (db : PayrollDb S) {u : Unit {0}} {db' : PayrollDb S}
      → elem clearing ks ≡ true
      → elem row.employee_account_id ks ≡ true
      → pay_row S now dto header row clearing db ≡ (ok u, db')
      → held db' ≡ held db
  unfolding pay_row payout_dto enqueue_payroll_event
  pay_row-total now dto header row clearing db {u} {db'} p q h =
      let post = payout_dto (S.uuid_text row.id) header row clearing in
      let done = post_with_shared_manager L now post (trim post.correlation_id) db.ledger in
      elim (Result-cases done.0) [
        | inr (e, r) ↦ absurd (ground (arith, r, h))
        | inl (y, r) ↦
            let same =
              post-total L c ks now post (trim post.correlation_id) db.ledger {r = y} {db' = done.1}
                d (rw (p, q) refl) (ground (arith, r)) in
            ground (arith, r, h, same)
      ]

  pay_item-total :
      (now : ℕ) (dto : ProcessPayrollBatchDto) (batch clearing id : ℕ) (db : PayrollDb S)
      {u : Unit {0}} {db' : PayrollDb S}
      → elem clearing ks ≡ true
      → Employs db
      → pay_item S now dto batch clearing id db ≡ (ok u, db')
      → held db' ≡ held db
  unfolding pay_item
  pay_item-total now dto batch clearing id db {u} {db'} p q h =
      elim (Option-cases (I.find id db.items)) [
        | inl f ↦ ground (arith, f, h)
        | inr (row, f) ↦ elim (Bool-cases (is_pending_item row.status)) [
          | inr n ↦ ground (arith, f, n, h)
          | inl n ↦ elim (Option-cases (B.find batch db.batches)) [
            | inl b ↦ absurd (ground (arith, f, n, b, h))
            | inr (header, b) ↦
                pay_row-total now dto header row clearing db {u = u} {db' = db'} p (q id row f)
                  (ground (arith, f, n, b, h))
          ]
        ]
      ]

  mark-held :
      (id : ℕ) (e : Exception) (db : PayrollDb S)
      → held (mark_item_payout_failed S id e db) ≡ held db
  unfolding mark_item_payout_failed
  mark-held id e db = elim (Option-cases (I.find id db.items)) [
    | inl f ↦ ground (arith, f)
    | inr (row, f) ↦ elim (Bool-cases (is_pending_item row.status)) [
      | inl p ↦ ground (arith, f, p)
      | inr p ↦ ground (arith, f, p)
    ]
  ]

  payout_round-total :
      (now : ℕ) (dto : ProcessPayrollBatchDto) (batch clearing : ℕ) (i : PayrollItem)
      (db : PayrollDb S)
      → elem clearing ks ≡ true
      → Employs db
      → held (payout_round S now dto batch clearing i db) ≡ held db
  unfolding payout_round
  payout_round-total now dto batch clearing i db p q =
      elim (Bool-cases (is_pending_item i.status)) [
        | inr n ↦ ground (arith, n)
        | inl n ↦
            let body = pay_item S now dto batch clearing i.id db in
            elim (Result-cases body.0) [
              | inl (u, x) ↦
                  let same =
                    pay_item-total now dto batch clearing i.id db {u = u} {db' = body.1} p q
                      (ground (arith, x)) in
                  ground (arith, n, x, same)
              | inr (e, x) ↦ let same = mark-held i.id e db in ground (arith, n, x, same)
            ]
      ]

  pub payout_rounds-total :
      (now : ℕ) (dto : ProcessPayrollBatchDto) (batch clearing : ℕ) (is : List PayrollItem)
      (db : PayrollDb S)
      → elem clearing ks ≡ true
      → Employs db
      → held (payout_rounds S now dto batch clearing is db) ≡ held db
  unfolding payout_rounds
  payout_rounds-total now dto batch clearing [] db p q = refl
  payout_rounds-total now dto batch clearing (i ∷ is) db p q =
      let db₁ = payout_round S now dto batch clearing i db in
      let settled = payout_round-items S now dto batch clearing i db in
      payout_rounds-total now dto batch clearing is db₁ p (Employs-settled db db₁ settled q)
      ∙ payout_round-total now dto batch clearing i db p q
