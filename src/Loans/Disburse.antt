-- ===== src/Loans/Disburse.antt =====
-- `disburseApprovedToWallet` of modules/loans/service/loan-orchestration.service.ts.
use fintech_nova_pay.Common.{
  ℕ, Bool, true, false, not, ◌&&◌, Option, none, some, [], ◌∷◌, take, if◌then◌else◌,
}
use fintech_nova_pay.Common.Result.{
  Result, ok, err, bad_request, not_found, throw_if, or_throw, ◌>>=◌, ◌>>◌,
}
use fintech_nova_pay.Common.Action.{Action, transaction}
use fintech_nova_pay.Common.Dict.{is_some}
use fintech_nova_pay.Common.Text.{Text}
use fintech_nova_pay.Accounts.Entity.{currency_name}
use fintech_nova_pay.Outbox.Entity.{loan_disbursed, Payload, Value}
use fintech_nova_pay.Payments.Entity.{Payment, PaymentStatus, PaymentType, CreatePaymentDto}
use fintech_nova_pay.Payments.Requests.{text_or, payment_ledger_correlation_id}
use fintech_nova_pay.Payments.Orchestrator.{submit_payment_with_shared_manager}
use fintech_nova_pay.Loans.Entity.{
  Loan, LoanStatus, DisburseLoanDto, is_active_loan, is_disbursable,
}
use fintech_nova_pay.Loans.Store.{LoanStore, LoanDb, enqueue_loan_event}

abbrev pub is_completed : PaymentStatus → Bool
is_completed PaymentStatus.completed = true
is_completed _ = false

-- `loan-disburse:` and the loan's identifier, 128 characters at most
unfoldable pub disburse_correlation : Text → Text
disburse_correlation id = take 128 (
    b'l' ∷ b'o' ∷ b'a' ∷ b'n' ∷ b'-' ∷ b'd' ∷ b'i' ∷ b's' ∷ b'b' ∷ b'u' ∷ b'r' ∷ b's' ∷ b'e' ∷ b':'
    ∷ id)

unfoldable pub disburse_dto : Text → DisburseLoanDto → Loan → ℕ → ℕ → CreatePaymentDto
disburse_dto loan_text dto loan wallet funding = record {
  idempotency_key = dto.idempotency_key;
  idempotency_scope_key = some (text_or [] dto.idempotency_scope_key);
  type = PaymentType.internal_transfer;
  reference = dto.reference;
  source_account_id = funding;
  destination_account_id = wallet;
  amount = loan.principal_amount;
  currency = loan.currency;
  correlation_id = some (disburse_correlation loan_text);
  memo = dto.memo;
}

-- The wallet and the funding account, if the loan may be paid out.
unfoldable pub disbursement_accounts : Loan → Result (ℕ × ℕ)
disbursement_accounts loan = do
  throw_if (not (is_disbursable loan.status))
      (bad_request "Loan must be APPROVED or PENDING_REVIEW to disburse")
  wallet ←
      or_throw loan.borrower_wallet_account_id
        (bad_request "Loan must have borrowerWalletAccountId and loanFundingAccountId")
  funding ←
      or_throw loan.loan_funding_account_id
        (bad_request "Loan must have borrowerWalletAccountId and loanFundingAccountId")
  ok (wallet, funding)

abbrev or_now : ℕ → Option ℕ → Option ℕ
or_now now none = some now
or_now now (some t) = some t

unfoldable pub disbursed : ℕ → Text → Payment → Loan → Loan
unfolding or_now
disbursed now payment_correlation p loan = record loan {
  status = LoanStatus.active;
  outstanding_principal = loan.principal_amount;
  disbursement_payment_id = some p.id;
  disbursement_correlation_id = some payment_correlation;
  disbursed_at = some now;
  approved_at = or_now now loan.approved_at;
}

abbrev pub disbursed_payload : ℕ → ℕ → Payment → Payload
disbursed_payload now loan p =
    ("eventName", Value.word "loan.disbursed")
    ∷ ("loanId", Value.id loan)
    ∷ ("paymentId", Value.id p.id)
    ∷ ("amount", Value.text p.amount)
    ∷ ("currency", Value.word (currency_name p.currency))
    ∷ ("occurredAt", Value.time now)
    ∷ []

module _ (S : LoanStore) where
  open S use {loans as Q}

  unfoldable pub record_disbursement : ℕ → Loan → Payment → Action (LoanDb S) Loan
  record_disbursement now loan p db =
      let saved = disbursed now (payment_ledger_correlation_id S.money.uuid_text p.id) p loan in
      (
        ok saved,
        record db {
          loans = Q.table.save saved db.loans;
          money =
              enqueue_loan_event S now loan_disbursed saved.id (disbursed_payload now saved.id p)
                db.money;
        },
      )

  unfoldable pub pay_out : ℕ → DisburseLoanDto → ℕ → Loan → ℕ → ℕ → Action (LoanDb S) Loan
  pay_out now dto actor loan wallet funding db =
      let pay_dto = disburse_dto (S.money.uuid_text loan.id) dto loan wallet funding in
      let (x, money) = submit_payment_with_shared_manager S.money now pay_dto actor db.money in
      let db₁ : LoanDb S = record db { money = money } in
      elim x [
        | err e ↦ (err e, db₁)
        | ok p ↦
            if not (is_completed p.status)
            then (err (bad_request "Disbursement payment did not complete"), db₁)
            else record_disbursement now loan p db₁
      ]

  unfoldable pub disburse_loan : ℕ → DisburseLoanDto → ℕ → Loan → Action (LoanDb S) Loan
  disburse_loan now dto actor loan db =
      if is_active_loan loan.status && is_some loan.disbursement_payment_id
      then (ok loan, db)
      else elim (disbursement_accounts loan) [
        | err e ↦ (err e, db)
        | ok (wallet, funding) ↦ pay_out now dto actor loan wallet funding db
      ]

  unfoldable pub disburse_in_transaction : ℕ → ℕ → DisburseLoanDto → ℕ → Action (LoanDb S) Loan
  disburse_in_transaction now loan_id dto actor db = elim (Q.table.find loan_id db.loans) [
    | none ↦ (err (not_found "Loan not found"), db)
    | some loan ↦ disburse_loan now dto actor loan db
  ]

  unfoldable pub disburse_approved_to_wallet : ℕ → ℕ → DisburseLoanDto → ℕ → Action (LoanDb S) Loan
  disburse_approved_to_wallet now loan_id dto actor =
      transaction (disburse_in_transaction now loan_id dto actor)
