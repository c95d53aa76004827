-- ===== src/Payroll/Money.antt =====
-- What a run of a payroll batch does to the money of the accounts.
use fintech_nova_pay.Common.{ℕ, ◌≡◌, ◌∙◌, ap, sym, inl, inr, Bool-cases, true, some, List, arith}
use fintech_nova_pay.Common.Result.{Result-cases, or_throw-eq-ok}
use fintech_nova_pay.Common.Dict.{elem}
use fintech_nova_pay.Accounts.Entity.{Currency}
use fintech_nova_pay.Ledger.Lines.{distinct}
use fintech_nova_pay.Ledger.Conservation.{total}
use fintech_nova_pay.Payroll.Entity.{PayrollBatch, PayrollItem, ProcessPayrollBatchDto}
use fintech_nova_pay.Payroll.Store.{PayrollStore, PayrollDb}
use fintech_nova_pay.Payroll.Payouts.{clearing_account_id, execute_payroll_item_payouts}
use fintech_nova_pay.Payroll.Funding.{
  is_posted_row, prepare, require_batch, is_completed_batch, disburse, disburse_funded,
  process_payroll_batch,
}
use fintech_nova_pay.Payroll.PayoutMoney.{held, Employs, payout_rounds-total}
use fintech_nova_pay.Payroll.FundingMoney.{finalize-held, prepare-Funded}

module _ (S : PayrollStore) (c : Currency) (ks : List ℕ) (d : distinct ks ≡ true)
    (house : (x : Currency) (a : ℕ) → S.clearing x ≡ some a → elem a ks ≡ true) where
  open S use {ledger as L, items as I, batches as B}

  payouts-total :
      (now : ℕ) (dto : ProcessPayrollBatchDto) (b : PayrollBatch) (is : List PayrollItem)
      (db : PayrollDb S)
      → Employs S c ks d db
      → held S c ks d (execute_payroll_item_payouts S now dto b is db).1 ≡ held S c ks d db
  unfolding execute_payroll_item_payouts clearing_account_id
  payouts-total now dto b is db q = elim (Result-cases (clearing_account_id S b.currency)) [
    | inr (e, f) ↦ ground (arith, f)
    | inl (a, f) ↦
        let there = house b.currency a (or_throw-eq-ok (S.clearing b.currency) _ f) in
        let same = payout_rounds-total S c ks d now dto b.id a is db there q in
        ground (arith, f, same)
  ]

  disburse-total :
      (now : ℕ) (dto : ProcessPayrollBatchDto) (b : PayrollBatch) (db : PayrollDb S)
      → Employs S c ks d db
      → held S c ks d (disburse S now dto b db).1 ≡ held S c ks d db
  unfolding disburse
  disburse-total now dto b db q =
      let run = execute_payroll_item_payouts S now dto b (S.find_by_batch b.id db.items) db in
      let same = payouts-total now dto b (S.find_by_batch b.id db.items) db q in
      elim (Result-cases run.0) [
        | inr (e, x) ↦ ground (arith, x, same)
        | inl (u, x) ↦
            let ended = finalize-held S c ks d house now b.id dto run.1 in
            ground (arith, x, same, ended)
      ]

  disburse_funded-total :
      (now : ℕ) (dto : ProcessPayrollBatchDto) (id : ℕ) (db : PayrollDb S)
      → Employs S c ks d db
      → held S c ks d (disburse_funded S now dto id db).1 ≡ held S c ks d db
  unfolding disburse_funded
  disburse_funded-total now dto id db q =
      elim (Bool-cases (is_posted_row (S.find_reservation id db.reservations))) [
        | inr n ↦ ground (arith, n)
        | inl n ↦ elim (Result-cases (require_batch S id db)) [
          | inr (e, f) ↦ ground (arith, n, f)
          | inl (b, f) ↦ let same = disburse-total now dto b db q in ground (arith, n, f, same)
        ]
      ]

  -- A run of a batch, whatever its outcome, keeps the money of every currency that a set of accounts
  -- holds, if the set has the clearing accounts, the employers of all batches and the employees of
  -- all items.
  pub process_payroll_batch-total :
      (now id : ℕ) (dto : ProcessPayrollBatchDto) (db : PayrollDb S)
      → ((k : ℕ) (b : PayrollBatch)
          → B.find k db.batches ≡ some b
          → elem b.employer_account_id ks ≡ true)
      → ((k : ℕ) (i : PayrollItem)
          → I.find k db.items ≡ some i
          → elem i.employee_account_id ks ≡ true)
      → total L.accounts c ks (process_payroll_batch S now id dto db).1.ledger.accounts
        ≡ total L.accounts c ks db.ledger.accounts
  unfolding process_payroll_batch
  process_payroll_batch-total now id dto db p q = elim (Result-cases (require_batch S id db)) [
    | inr (e, f) ↦ ground (arith, f)
    | inl (b, f) ↦ elim (Bool-cases (is_completed_batch S b.status)) [
      | inl n ↦ ground (arith, f, n)
      | inr n ↦
          let run = prepare S now dto b b.status db in
          let funded = prepare-Funded S c ks d house now dto b b.status db p in
          let money = funded.money in
          elim (Result-cases run.0) [
            | inr (e, x) ↦ ground (arith, f, n, x, money)
            | inl (u, x) ↦
                let employs : Employs S c ks d run.1 =
                  λ k i g. q k i (ap (λ t. I.find k t) (sym funded.items) ∙ g) in
                let same = disburse_funded-total now dto id run.1 employs in
                ground (arith, f, n, x, money, same)
          ]
    ]
  ]
