-- ===== src/Loans/Repay.antt =====
-- `repayFromWallet` of modules/loans/service/loan-orchestration.service.ts.
use fintech_nova_pay.Common.{ℕ, ◌==◌, not, Option, none, some, [], ◌∷◌, take, if◌then◌else◌}
use fintech_nova_pay.Common.Int.{ℤ, pos, ltb_ℤ, eqb_ℤ}
use fintech_nova_pay.Common.Result.{
  Result, ok, err, bad_request, not_found, forbidden, throw_if, or_throw, ◌>>=◌, ◌>>◌,
}
use fintech_nova_pay.Common.Action.{Action, transaction, throw}
use fintech_nova_pay.Common.Text.{Text}
use fintech_nova_pay.Accounts.Entity.{currency_name}
use fintech_nova_pay.Outbox.Entity.{loan_repayment_received, Payload, Value}
use fintech_nova_pay.Decimal.{parse_amount_to_big_int4, amount_gte4, subtract_amount4}
use fintech_nova_pay.Payments.Entity.{Payment, PaymentType, CreatePaymentDto}
use fintech_nova_pay.Payments.Requests.{text_or, payment_ledger_correlation_id}
use fintech_nova_pay.Payments.Orchestrator.{submit_payment_with_shared_manager}
use fintech_nova_pay.Loans.Entity.{
  Loan, LoanStatus, LoanRepayment, LoanRepaymentStatus, RepayLoanDto, is_repayable,
}
use fintech_nova_pay.Loans.Store.{LoanStore, LoanDb, enqueue_loan_event}
use fintech_nova_pay.Loans.Disburse.{is_completed}

-- `loan-repay:` and the loan's identifier, 128 characters at most
unfoldable pub repay_correlation : Text → Text
repay_correlation id =
    take 128 (b'l' ∷ b'o' ∷ b'a' ∷ b'n' ∷ b'-' ∷ b'r' ∷ b'e' ∷ b'p' ∷ b'a' ∷ b'y' ∷ b':' ∷ id)

unfoldable pub repay_dto : Text → RepayLoanDto → Loan → ℕ → CreatePaymentDto
repay_dto loan_text dto loan funding = record {
  idempotency_key = dto.idempotency_key;
  idempotency_scope_key = some (text_or [] dto.idempotency_scope_key);
  type = PaymentType.internal_transfer;
  reference = dto.reference;
  source_account_id = dto.source_account_id;
  destination_account_id = funding;
  amount = dto.amount;
  currency = loan.currency;
  correlation_id = some (repay_correlation loan_text);
  memo = dto.memo;
}

-- The amount has to be readable, whatever the parser throws, and positive.
unfoldable pub check_amount : Text → Result (Unit {0})
check_amount amount = elim (parse_amount_to_big_int4 amount) [
  | err e ↦ err (bad_request "Invalid repayment amount")
  | ok v ↦ throw_if (not (ltb_ℤ (pos 0) v)) (bad_request "Repayment amount must be positive")
]

-- The funding account, if the loan takes this repayment.
unfoldable pub check_repayable : Loan → RepayLoanDto → ℕ → Result ℕ
check_repayable loan dto actor = do
  throw_if (not (loan.borrower_user_id == actor))
      (forbidden "Only the borrower can repay this loan")
  throw_if (not (is_repayable loan.status))
      (bad_request "Loan must be ACTIVE or OVERDUE to accept repayment")
  funding ← or_throw loan.loan_funding_account_id (bad_request "Loan has no loanFundingAccountId")
  covered ← amount_gte4 loan.outstanding_principal dto.amount
  throw_if (not covered) (bad_request "Repayment exceeds outstanding principal")
  ok funding

-- The loan after a repayment; it closes at zero.
unfoldable pub repaid : ℕ → ℕ → Text → ℤ → Loan → Loan
repaid now payment outstanding v loan =
    if eqb_ℤ v (pos 0)
    then record loan {
      outstanding_principal = outstanding;
      last_repayment_payment_id = some payment;
      status = LoanStatus.closed;
      closed_at = some now;
    }
    else record loan {
      outstanding_principal = outstanding;
      last_repayment_payment_id = some payment;
    }

abbrev pub repayment_row : (ℕ → Text) → ℕ → Text → ℕ → LoanRepayment
repayment_row uuid_text loan amount payment = record {
  loan_id = loan;
  amount = amount;
  status = LoanRepaymentStatus.completed;
  payment_id = payment;
  payment_correlation_id = payment_ledger_correlation_id uuid_text payment;
}

abbrev pub repayment_payload : ℕ → Loan → ℕ → Text → Payload
repayment_payload now loan payment amount =
    ("eventName", Value.word "loan.repayment.received")
    ∷ ("loanId", Value.id loan.id)
    ∷ ("paymentId", Value.id payment)
    ∷ ("amount", Value.text amount)
    ∷ ("currency", Value.word (currency_name loan.currency))
    ∷ ("outstandingPrincipalAfter", Value.text loan.outstanding_principal)
    ∷ ("occurredAt", Value.time now)
    ∷ []

abbrev or_loan : Loan → Option Loan → Loan
or_loan l none = l
or_loan l (some m) = m

module _ (S : LoanStore) where
  open S use {loans as Q, repayments as R}

  -- The loan, the repayment's row and the event.
  unfoldable pub save_repayment : ℕ → Text → Payment → Loan → Action (LoanDb S) Loan
  save_repayment now amount p saved db = (
    ok saved,
    record db {
      loans = Q.table.save saved db.loans;
      repayments = R.save (repayment_row S.money.uuid_text saved.id amount p.id) db.repayments;
      money =
          enqueue_loan_event S now loan_repayment_received saved.id
            (repayment_payload now saved p.id amount) db.money;
    },
  )

  unfoldable pub apply_repayment : ℕ → Text → Loan → Payment → Action (LoanDb S) Loan
  apply_repayment now amount loan p db = elim (subtract_amount4 loan.outstanding_principal amount) [
    | err e ↦ (err e, db)
    | ok outstanding ↦ elim (parse_amount_to_big_int4 outstanding) [
      | err e ↦ (err e, db)
      | ok v ↦ save_repayment now amount p (repaid now p.id outstanding v loan) db
    ]
  ]

  -- A payment that has been counted is not counted again.
  unfoldable pub record_repayment : ℕ → Text → Loan → Payment → Action (LoanDb S) Loan
  record_repayment now amount loan p db = elim (R.find_by_payment loan.id p.id db.repayments) [
    | some dupe ↦ (ok (or_loan loan (Q.table.find loan.id db.loans)), db)
    | none ↦ apply_repayment now amount loan p db
  ]

  unfoldable pub collect : ℕ → RepayLoanDto → ℕ → Loan → ℕ → Action (LoanDb S) Loan
  collect now dto actor loan funding db =
      let pay_dto = repay_dto (S.money.uuid_text loan.id) dto loan funding in
      let (x, money) = submit_payment_with_shared_manager S.money now pay_dto actor db.money in
      let db₁ : LoanDb S = record db { money = money } in
      elim x [
        | err e ↦ (err e, db₁)
        | ok p ↦
            if not (is_completed p.status)
            then (err (bad_request "Repayment payment did not complete"), db₁)
            else record_repayment now dto.amount loan p db₁
      ]

  unfoldable pub repay_loan : ℕ → RepayLoanDto → ℕ → Loan → Action (LoanDb S) Loan
  repay_loan now dto actor loan db = elim (check_repayable loan dto actor) [
    | err e ↦ (err e, db)
    | ok funding ↦ collect now dto actor loan funding db
  ]

  unfoldable pub repay_in_transaction : ℕ → ℕ → RepayLoanDto → ℕ → Action (LoanDb S) Loan
  repay_in_transaction now loan_id dto actor db = elim (Q.table.find loan_id db.loans) [
    | none ↦ (err (not_found "Loan not found"), db)
    | some loan ↦ repay_loan now dto actor loan db
  ]

  unfoldable pub repay_from_wallet : ℕ → ℕ → RepayLoanDto → ℕ → Action (LoanDb S) Loan
  repay_from_wallet now loan_id dto actor = elim (check_amount dto.amount) [
    | err e ↦ throw e
    | ok u ↦ transaction (repay_in_transaction now loan_id dto actor)
  ]
