-- ===== src/Loans/Evolution.antt =====
-- What disbursements, repayments and sweeps do to the rows of the loans.
use fintech_nova_pay.Common.{
  ℕ, ◌≡◌, refl, ltb, true, ◌&&◌, ◌⊎◌, some, List, [], ◌∷◌, inl, inr, Bool-cases, Option-cases,
  arith,
}
use fintech_nova_pay.Common.Result.{ok, Result-cases}
use fintech_nova_pay.Common.Action.{transaction, transaction-state}
use fintech_nova_pay.Common.Dict.{is_some}
use fintech_nova_pay.Common.Text.{Text}
use fintech_nova_pay.Decimal.{subtract_amount4, parse_amount_to_big_int4}
use fintech_nova_pay.Payments.Entity.{Payment}
use fintech_nova_pay.Payments.Requests.{payment_ledger_correlation_id}
use fintech_nova_pay.Payments.Orchestrator.{submit_payment_with_shared_manager}
use fintech_nova_pay.Loans.Entity.{
  Loan, LoanStatus, DisburseLoanDto, RepayLoanDto, is_active_loan, is_disbursable, is_repayable,
}
use fintech_nova_pay.Loans.Store.{LoanStore, LoanDb}
use fintech_nova_pay.Loans.Disburse.{
  is_completed, disburse_dto, disbursement_accounts, disbursed, record_disbursement, pay_out,
  disburse_loan, disburse_in_transaction, disburse_approved_to_wallet,
}
use fintech_nova_pay.Loans.Repay.{
  repay_dto, check_amount, check_repayable, repaid, save_repayment, apply_repayment,
  record_repayment, collect, repay_loan, repay_in_transaction, repay_from_wallet,
}
use fintech_nova_pay.Loans.Overdue.{mark_overdue, sweep_loan, sweep_candidates, sweep_overdue_loans}
use fintech_nova_pay.Loans.Lifecycle.{
  Kept-refl, Kept-trans, LoanReaches, LoansEvolved, Touched, untouched, saved, falling_due, stay,
  move, Touched-LoansEvolved, disbursed-LoanEvolved, repaid-LoanEvolved, is_active_loan→eq,
}

pub disbursement_accounts-disbursable :
    (loan : Loan) {a : ℕ × ℕ}
    → disbursement_accounts loan ≡ ok a
    → is_disbursable loan.status ≡ true
unfolding disbursement_accounts
disbursement_accounts-disbursable loan h = elim (Bool-cases (is_disbursable loan.status)) [
  | inl e ↦ e
  | inr e ↦ absurd (ground (arith, e, h))
]

pub check_repayable-repayable :
    (loan : Loan) (dto : RepayLoanDto) (actor : ℕ) {a : ℕ}
    → check_repayable loan dto actor ≡ ok a
    → is_repayable loan.status ≡ true
unfolding check_repayable
check_repayable-repayable loan dto actor h = elim (Bool-cases (is_repayable loan.status)) [
  | inl e ↦ e
  | inr e ↦ absurd (ground (arith, e, h))
]

module _ (S : LoanStore) where
  open S use {loans as Q}

  pay_out-Touched :
      (now : ℕ) (dto : DisburseLoanDto) (actor id : ℕ) (loan : Loan) (wallet funding : ℕ)
      (db : LoanDb S)
      → Q.table.find id db.loans ≡ some loan
      → is_disbursable loan.status ≡ true
      → Touched S db.loans (pay_out S now dto actor loan wallet funding db).1.loans
  unfolding pay_out record_disbursement
  pay_out-Touched now dto actor id loan wallet funding db f d =
      let pay_dto = disburse_dto (S.money.uuid_text loan.id) dto loan wallet funding in
      let paid = submit_payment_with_shared_manager S.money now pay_dto actor db.money in
      elim (Result-cases paid.0) [
        | inr (e, x) ↦ untouched (ground (arith, x))
        | inl (p, x) ↦ elim (Bool-cases (is_completed p.status)) [
          | inr c ↦ untouched (ground (arith, x, c))
          | inl c ↦
              let corr = payment_ledger_correlation_id S.money.uuid_text p.id in
              saved id loan (disbursed now corr p loan) f (disbursed-LoanEvolved now corr p loan d)
                (ground (arith, x, c))
        ]
      ]

  disburse_in_transaction-Touched :
      (now id : ℕ) (dto : DisburseLoanDto) (actor : ℕ) (db : LoanDb S)
      → Touched S db.loans (disburse_in_transaction S now id dto actor db).1.loans
  unfolding disburse_in_transaction disburse_loan
  disburse_in_transaction-Touched now id dto actor db =
      elim (Option-cases (Q.table.find id db.loans)) [
        | inl f ↦ untouched (ground (arith, f))
        | inr (loan, f) ↦
            elim (Bool-cases (is_active_loan loan.status && is_some loan.disbursement_payment_id)) [
              | inl a ↦ untouched (ground (arith, f, a))
              | inr a ↦ elim (Result-cases (disbursement_accounts loan)) [
                | inr (e, x) ↦ untouched (ground (arith, f, a, x))
                | inl ((wallet, funding), x) ↦
                    let run : disburse_in_transaction S now id dto actor db
                        ≡ pay_out S now dto actor loan wallet funding db =
                      ground (arith, f, a, x) in
                    rw run (
                      pay_out-Touched now dto actor id loan wallet funding db f
                        (disbursement_accounts-disbursable loan x))
              ]
            ]
      ]

  pub disburse-LoansEvolved :
      (now id : ℕ) (dto : DisburseLoanDto) (actor : ℕ) (db : LoanDb S)
      → LoansEvolved S db.loans (disburse_approved_to_wallet S now id dto actor db).1.loans
  unfolding disburse_approved_to_wallet
  disburse-LoansEvolved now id dto actor db =
      elim (transaction-state (disburse_in_transaction S now id dto actor) db) [
        | inl e ↦ rw e (Touched-LoansEvolved S (untouched refl))
        | inr e ↦
            rw e (Touched-LoansEvolved S (disburse_in_transaction-Touched now id dto actor db))
      ]

  record_repayment-Touched :
      (now id : ℕ) (amount : Text) (loan : Loan) (p : Payment) (db : LoanDb S)
      → Q.table.find id db.loans ≡ some loan
      → is_repayable loan.status ≡ true
      → Touched S db.loans (record_repayment S now amount loan p db).1.loans
  unfolding record_repayment apply_repayment save_repayment
  record_repayment-Touched now id amount loan p db f d =
      elim (Option-cases (S.repayments.find_by_payment loan.id p.id db.repayments)) [
        | inr (dupe, x) ↦ untouched (ground (arith, x))
        | inl x ↦ elim (Result-cases (subtract_amount4 loan.outstanding_principal amount)) [
          | inr (e, y) ↦ untouched (ground (arith, x, y))
          | inl (outstanding, y) ↦ elim (Result-cases (parse_amount_to_big_int4 outstanding)) [
            | inr (e, z) ↦ untouched (ground (arith, x, y, z))
            | inl (v, z) ↦
                saved id loan (repaid now p.id outstanding v loan) f
                  (repaid-LoanEvolved now p.id outstanding v loan d) (ground (arith, x, y, z))
          ]
        ]
      ]

  collect-Touched :
      (now : ℕ) (dto : RepayLoanDto) (actor id : ℕ) (loan : Loan) (funding : ℕ) (db : LoanDb S)
      → Q.table.find id db.loans ≡ some loan
      → is_repayable loan.status ≡ true
      → Touched S db.loans (collect S now dto actor loan funding db).1.loans
  unfolding collect
  collect-Touched now dto actor id loan funding db f d =
      let pay_dto = repay_dto (S.money.uuid_text loan.id) dto loan funding in
      let paid = submit_payment_with_shared_manager S.money now pay_dto actor db.money in
      elim (Result-cases paid.0) [
        | inr (e, x) ↦ untouched (ground (arith, x))
        | inl (p, x) ↦ elim (Bool-cases (is_completed p.status)) [
          | inr c ↦ untouched (ground (arith, x, c))
          | inl c ↦
              let db₁ : LoanDb S = record db { money = paid.1 } in
              let run : collect S now dto actor loan funding db
                  ≡ record_repayment S now dto.amount loan p db₁ =
                ground (arith, x, c) in
              rw run (record_repayment-Touched now id dto.amount loan p db₁ f d)
        ]
      ]

  repay_in_transaction-Touched :
      (now id : ℕ) (dto : RepayLoanDto) (actor : ℕ) (db : LoanDb S)
      → Touched S db.loans (repay_in_transaction S now id dto actor db).1.loans
  unfolding repay_in_transaction repay_loan
  repay_in_transaction-Touched now id dto actor db =
      elim (Option-cases (Q.table.find id db.loans)) [
        | inl f ↦ untouched (ground (arith, f))
        | inr (loan, f) ↦ elim (Result-cases (check_repayable loan dto actor)) [
          | inr (e, x) ↦ untouched (ground (arith, f, x))
          | inl (funding, x) ↦
              let run : repay_in_transaction S now id dto actor db
                  ≡ collect S now dto actor loan funding db =
                ground (arith, f, x) in
              rw run (
                collect-Touched now dto actor id loan funding db f
                  (check_repayable-repayable loan dto actor x))
        ]
      ]

  -- A repayment leaves the state as it was or as its transaction's body left it.
  repay-state :
      (now id : ℕ) (dto : RepayLoanDto) (actor : ℕ) (db : LoanDb S)
      → ((repay_from_wallet S now id dto actor db).1 ≡ db)
        ⊎ ((repay_from_wallet S now id dto actor db).1
            ≡ (repay_in_transaction S now id dto actor db).1)
  unfolding repay_from_wallet
  repay-state now id dto actor db = elim (Result-cases (check_amount dto.amount)) [
    | inr (e, x) ↦ inl (ground (arith, x))
    | inl (u, x) ↦
        let run : repay_from_wallet S now id dto actor db
            ≡ transaction (repay_in_transaction S now id dto actor) db =
          ground (arith, x) in
        rw run (transaction-state (repay_in_transaction S now id dto actor) db)
  ]

  pub repay-LoansEvolved :
      (now id : ℕ) (dto : RepayLoanDto) (actor : ℕ) (db : LoanDb S)
      → LoansEvolved S db.loans (repay_from_wallet S now id dto actor db).1.loans
  repay-LoansEvolved now id dto actor db = elim (repay-state now id dto actor db) [
    | inl e ↦ rw e (Touched-LoansEvolved S (untouched refl))
    | inr e ↦ rw e (Touched-LoansEvolved S (repay_in_transaction-Touched now id dto actor db))
  ]

  sweep_loan-Touched :
      (now cutoff id : ℕ) (db : LoanDb S) → Touched S db.loans (sweep_loan S now cutoff id db).loans
  unfolding sweep_loan mark_overdue
  sweep_loan-Touched now cutoff id db = elim (Option-cases (Q.table.find id db.loans)) [
    | inl f ↦ untouched (ground (arith, f))
    | inr (loan, f) ↦ elim (Bool-cases (is_active_loan loan.status)) [
      | inr a ↦ untouched (ground (arith, f, a))
      | inl a ↦ elim (Option-cases loan.maturity_date) [
        | inl m ↦ untouched (ground (arith, f, a, m))
        | inr (maturity, m) ↦ elim (Bool-cases (ltb maturity cutoff)) [
          | inr b ↦ untouched (ground (arith, f, a, m, b))
          | inl b ↦
              let due = record loan { status = LoanStatus.overdue; marked_overdue_at = some now } in
              let step : LoanReaches loan.status LoanStatus.overdue =
                rw (is_active_loan→eq loan.status a) (move falling_due stay) in
              saved id loan due f
                (record {
                  id = refl;
                  borrower = refl;
                  principal = refl;
                  currency = refl;
                  status = step;
                })
                (ground (arith, f, a, m, b))
        ]
      ]
    ]
  ]

  sweep_candidates-LoansEvolved :
      (now cutoff : ℕ) (cs : List Loan) (db : LoanDb S)
      → LoansEvolved S db.loans (sweep_candidates S now cutoff cs db).loans
  unfolding sweep_candidates
  sweep_candidates-LoansEvolved now cutoff [] db k = Kept-refl (Q.table.find k db.loans)
  sweep_candidates-LoansEvolved now cutoff (c ∷ cs) db k =
      let db₁ = sweep_loan S now cutoff c.id db in
      Kept-trans (Q.table.find k db.loans) (Q.table.find k db₁.loans)
        (Q.table.find k (sweep_candidates S now cutoff cs db₁).loans)
        (Touched-LoansEvolved S (sweep_loan-Touched now cutoff c.id db) k)
        (sweep_candidates-LoansEvolved now cutoff cs db₁ k)

  pub sweep-LoansEvolved :
      (now cutoff : ℕ) (db : LoanDb S)
      → LoansEvolved S db.loans (sweep_overdue_loans S now cutoff db).loans
  unfolding sweep_overdue_loans
  sweep-LoansEvolved now cutoff db =
      sweep_candidates-LoansEvolved now cutoff (Q.find_active_with_maturity_before cutoff db.loans)
        db
