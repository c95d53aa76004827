-- ===== src/Loans/Money.antt =====
-- What a loan's operations do to the money of the accounts.
use fintech_nova_pay.Common.{
  ℕ, ◌≡◌, true, ◌&&◌, some, List, inl, inr, Bool-cases, Option-cases, arith,
}
use fintech_nova_pay.Common.Result.{ok, Result-cases}
use fintech_nova_pay.Common.Dict.{elem, is_some}
use fintech_nova_pay.Common.Text.{Text}
use fintech_nova_pay.Decimal.{subtract_amount4, parse_amount_to_big_int4, amount_gte4}
use fintech_nova_pay.Accounts.Entity.{Currency}
use fintech_nova_pay.Ledger.Lines.{distinct}
use fintech_nova_pay.Ledger.Conservation.{total}
use fintech_nova_pay.Ledger.Atomicity.{Readable}
use fintech_nova_pay.Payments.Entity.{Payment}
use fintech_nova_pay.Payments.Orchestrator.{submit_payment_with_shared_manager}
use fintech_nova_pay.Payments.Money.{submit_shared-total}
use fintech_nova_pay.Loans.Entity.{
  Loan, DisburseLoanDto, RepayLoanDto, is_active_loan, is_disbursable,
}
use fintech_nova_pay.Loans.Store.{LoanStore, LoanDb, enqueue_loan_event}
use fintech_nova_pay.Loans.Disburse.{
  is_completed, disburse_dto, disbursement_accounts, record_disbursement, pay_out, disburse_loan,
  disburse_in_transaction, disburse_approved_to_wallet,
}
use fintech_nova_pay.Loans.Repay.{
  repay_dto, check_amount, check_repayable, save_repayment, apply_repayment, record_repayment,
  collect, repay_loan, repay_in_transaction, repay_from_wallet,
}

check_repayable-funding :
    (loan : Loan) (dto : RepayLoanDto) (actor : ℕ) {a : ℕ}
    → check_repayable loan dto actor ≡ ok a
    → loan.loan_funding_account_id ≡ some a
unfolding check_repayable
check_repayable-funding loan dto actor h = elim (Option-cases loan.loan_funding_account_id) [
  | inl n ↦ absurd (ground (arith, n, h))
  | inr (b, n) ↦ elim (Result-cases (amount_gte4 loan.outstanding_principal dto.amount)) [
    | inl (covered, g) ↦ ground (arith, n, g, h)
    | inr (e, g) ↦ absurd (ground (arith, n, g, h))
  ]
]

module _ (S : LoanStore) where
  open S use {loans as Q}

  pay_out-total :
      (c : Currency) (ks : List ℕ) (now : ℕ) (dto : DisburseLoanDto) (actor : ℕ) (loan : Loan)
      (wallet funding : ℕ) (db : LoanDb S)
      → distinct ks ≡ true
      → elem funding ks ≡ true
      → elem wallet ks ≡ true
      → Readable S.money.ledger.accounts db.money.ledger.accounts
      → total S.money.ledger.accounts c ks
          (pay_out S now dto actor loan wallet funding db).1.money.ledger.accounts
        ≡ total S.money.ledger.accounts c ks db.money.ledger.accounts
  unfolding pay_out record_disbursement disburse_dto enqueue_loan_event
  pay_out-total c ks now dto actor loan wallet funding db d s t read =
      let pay_dto = disburse_dto (S.money.uuid_text loan.id) dto loan wallet funding in
      let paid = submit_payment_with_shared_manager S.money now pay_dto actor db.money in
      let same = submit_shared-total S.money c ks now pay_dto actor db.money d s t read in
      elim (Result-cases paid.0) [
        | inr (e, x) ↦ ground (arith, x, same)
        | inl (p, x) ↦ elim (Bool-cases (is_completed p.status)) [
          | inr n ↦ ground (arith, x, n, same)
          | inl n ↦ ground (arith, x, n, same)
        ]
      ]

  disburse_loan-total :
      (c : Currency) (ks : List ℕ) (now : ℕ) (dto : DisburseLoanDto) (actor : ℕ) (loan : Loan)
      (db : LoanDb S) {wallet funding : ℕ}
      → loan.borrower_wallet_account_id ≡ some wallet
      → loan.loan_funding_account_id ≡ some funding
      → distinct ks ≡ true
      → elem funding ks ≡ true
      → elem wallet ks ≡ true
      → Readable S.money.ledger.accounts db.money.ledger.accounts
      → total S.money.ledger.accounts c ks
          (disburse_loan S now dto actor loan db).1.money.ledger.accounts
        ≡ total S.money.ledger.accounts c ks db.money.ledger.accounts
  unfolding disburse_loan disbursement_accounts
  disburse_loan-total c ks now dto actor loan db {wallet} {funding} w v d s t read =
      let same = pay_out-total c ks now dto actor loan wallet funding db d s t read in
      elim (Bool-cases (is_active_loan loan.status && is_some loan.disbursement_payment_id)) [
        | inl a ↦ ground (arith, a)
        | inr a ↦ elim (Bool-cases (is_disbursable loan.status)) [
          | inr b ↦ ground (arith, a, b)
          | inl b ↦ ground (arith, a, b, w, v, same)
        ]
      ]

  -- A disbursement, whether it pays out, returns early or throws, keeps the money of every currency
  -- that a set of accounts holds, if the set has the wallet and the funding account of the loan.
  pub disburse-total :
      (c : Currency) (ks : List ℕ) (now id : ℕ) (dto : DisburseLoanDto) (actor : ℕ) (loan : Loan)
      (db : LoanDb S) {wallet funding : ℕ}
      → Q.table.find id db.loans ≡ some loan
      → loan.borrower_wallet_account_id ≡ some wallet
      → loan.loan_funding_account_id ≡ some funding
      → distinct ks ≡ true
      → elem funding ks ≡ true
      → elem wallet ks ≡ true
      → Readable S.money.ledger.accounts db.money.ledger.accounts
      → total S.money.ledger.accounts c ks
          (disburse_approved_to_wallet S now id dto actor db).1.money.ledger.accounts
        ≡ total S.money.ledger.accounts c ks db.money.ledger.accounts
  unfolding disburse_approved_to_wallet disburse_in_transaction
  disburse-total c ks now id dto actor loan db f w v d s t read =
      let same = disburse_loan-total c ks now dto actor loan db w v d s t read in
      elim (Result-cases (disburse_loan S now dto actor loan db).0) [
        | inl (l, x) ↦ ground (arith, f, x, same)
        | inr (e, x) ↦ ground (arith, f, x)
      ]

  record_repayment-money :
      (c : Currency) (ks : List ℕ) (now : ℕ) (amount : Text) (loan : Loan) (p : Payment)
      (db : LoanDb S)
      → total S.money.ledger.accounts c ks
          (record_repayment S now amount loan p db).1.money.ledger.accounts
        ≡ total S.money.ledger.accounts c ks db.money.ledger.accounts
  unfolding record_repayment apply_repayment save_repayment enqueue_loan_event
  record_repayment-money c ks now amount loan p db =
      elim (Option-cases (S.repayments.find_by_payment loan.id p.id db.repayments)) [
        | inr (dupe, x) ↦ ground (arith, x)
        | inl x ↦ elim (Result-cases (subtract_amount4 loan.outstanding_principal amount)) [
          | inr (e, y) ↦ ground (arith, x, y)
          | inl (outstanding, y) ↦ elim (Result-cases (parse_amount_to_big_int4 outstanding)) [
            | inr (e, z) ↦ ground (arith, x, y, z)
            | inl (v, z) ↦ ground (arith, x, y, z)
          ]
        ]
      ]

  collect-total :
      (c : Currency) (ks : List ℕ) (now : ℕ) (dto : RepayLoanDto) (actor : ℕ) (loan : Loan)
      (funding : ℕ) (db : LoanDb S)
      → distinct ks ≡ true
      → elem dto.source_account_id ks ≡ true
      → elem funding ks ≡ true
      → Readable S.money.ledger.accounts db.money.ledger.accounts
      → total S.money.ledger.accounts c ks
          (collect S now dto actor loan funding db).1.money.ledger.accounts
        ≡ total S.money.ledger.accounts c ks db.money.ledger.accounts
  unfolding collect repay_dto
  collect-total c ks now dto actor loan funding db d s t read =
      let pay_dto = repay_dto (S.money.uuid_text loan.id) dto loan funding in
      let paid = submit_payment_with_shared_manager S.money now pay_dto actor db.money in
      let same = submit_shared-total S.money c ks now pay_dto actor db.money d s t read in
      elim (Result-cases paid.0) [
        | inr (e, x) ↦ ground (arith, x, same)
        | inl (p, x) ↦ elim (Bool-cases (is_completed p.status)) [
          | inr n ↦ ground (arith, x, n, same)
          | inl n ↦
              let rest =
                record_repayment-money c ks now dto.amount loan p (record db { money = paid.1 }) in
              ground (arith, x, n, same, rest)
        ]
      ]

  repay_loan-total :
      (c : Currency) (ks : List ℕ) (now : ℕ) (dto : RepayLoanDto) (actor : ℕ) (loan : Loan)
      (db : LoanDb S)
      → distinct ks ≡ true
      → elem dto.source_account_id ks ≡ true
      → ((funding : ℕ) → loan.loan_funding_account_id ≡ some funding → elem funding ks ≡ true)
      → Readable S.money.ledger.accounts db.money.ledger.accounts
      → total S.money.ledger.accounts c ks
          (repay_loan S now dto actor loan db).1.money.ledger.accounts
        ≡ total S.money.ledger.accounts c ks db.money.ledger.accounts
  unfolding repay_loan
  repay_loan-total c ks now dto actor loan db d s t read =
      elim (Result-cases (check_repayable loan dto actor)) [
        | inr (e, x) ↦ ground (arith, x)
        | inl (funding, x) ↦
            let has = t funding (check_repayable-funding loan dto actor x) in
            let same = collect-total c ks now dto actor loan funding db d s has read in
            ground (arith, x, same)
      ]

  -- A repayment, whether it is counted, replayed or refused, keeps the money of every currency that
  -- a set of accounts holds, if the set has the payer's account and the loan's funding account.
  pub repay-total :
      (c : Currency) (ks : List ℕ) (now id : ℕ) (dto : RepayLoanDto) (actor : ℕ) (loan : Loan)
      (db : LoanDb S)
      → Q.table.find id db.loans ≡ some loan
      → distinct ks ≡ true
      → elem dto.source_account_id ks ≡ true
      → ((funding : ℕ) → loan.loan_funding_account_id ≡ some funding → elem funding ks ≡ true)
      → Readable S.money.ledger.accounts db.money.ledger.accounts
      → total S.money.ledger.accounts c ks
          (repay_from_wallet S now id dto actor db).1.money.ledger.accounts
        ≡ total S.money.ledger.accounts c ks db.money.ledger.accounts
  unfolding repay_from_wallet repay_in_transaction
  repay-total c ks now id dto actor loan db f d s t read =
      let same = repay_loan-total c ks now dto actor loan db d s t read in
      elim (Result-cases (check_amount dto.amount)) [
        | inr (e, a) ↦ ground (arith, a)
        | inl (u, a) ↦ elim (Result-cases (repay_loan S now dto actor loan db).0) [
          | inl (l, x) ↦ ground (arith, a, f, x, same)
          | inr (e, x) ↦ ground (arith, a, f, x)
        ]
      ]
