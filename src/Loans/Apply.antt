-- ===== src/Loans/Apply.antt =====
-- `applyForLoan` of modules/loans/service/loan-orchestration.service.ts.
use fintech_nova_pay.Common.{ℕ, ◌==◌, not, none, some, [], ◌∷◌, if◌then◌else◌}
use fintech_nova_pay.Common.Result.{ok, err, forbidden, query_failed}
use fintech_nova_pay.Common.Action.{Action, transaction, throw}
use fintech_nova_pay.Common.Text.{Text}
use fintech_nova_pay.Outbox.Entity.{loan_applied, Payload, Value}
use fintech_nova_pay.Ledger.Store.{stored, duplicate, broken}
use fintech_nova_pay.Payments.Requests.{text_or}
use fintech_nova_pay.Loans.Entity.{Loan, ApplyLoanDto, approved}
use fintech_nova_pay.Loans.Store.{NewLoan, loan_with_id, LoanStore, LoanDb, enqueue_loan_event}

abbrev zero4 : Text
zero4 = b'0' ∷ b'.' ∷ b'0' ∷ b'0' ∷ b'0' ∷ b'0' ∷ []

unfoldable pub new_loan : ℕ → ApplyLoanDto → Text → NewLoan
new_loan now dto scope = record {
  borrower_user_id = dto.borrower_user_id;
  status = approved;
  principal_amount = dto.principal_amount;
  outstanding_principal = zero4;
  currency = dto.currency;
  borrower_wallet_account_id = dto.borrower_wallet_account_id;
  loan_funding_account_id = dto.loan_funding_account_id;
  interest_rate_bps = dto.interest_rate_bps;
  term_months = dto.term_months;
  maturity_date = dto.maturity_date;
  apply_idempotency_key = dto.apply_idempotency_key;
  apply_idempotency_scope_key = scope;
  approved_at = some now;
}

abbrev pub applied_payload : ℕ → ℕ → Payload
applied_payload now loan =
    ("eventName", Value.word "loan.applied")
    ∷ ("loanId", Value.id loan)
    ∷ ("occurredAt", Value.time now)
    ∷ []

module _ (S : LoanStore) where
  open S use {loans as Q}

  unfoldable pub insert_application : ℕ → ApplyLoanDto → Text → Action (LoanDb S) Loan
  insert_application now dto scope db = elim (Q.insert (new_loan now dto scope) db.loans) [
    | stored i t ↦ (
      ok (loan_with_id i (new_loan now dto scope)),
      record db {
        loans = t;
        money = enqueue_loan_event S now loan_applied i (applied_payload now i) db.money;
      },
    )
    | duplicate t ↦ elim (Q.find_by_apply_key dto.apply_idempotency_key scope t) [
      | none ↦ (err query_failed, record db { loans = t })
      | some replay ↦ (ok replay, record db { loans = t })
    ]
    | broken ↦ (err query_failed, db)
  ]

  unfoldable pub apply_in_transaction : ℕ → ApplyLoanDto → Text → Action (LoanDb S) Loan
  apply_in_transaction now dto scope db =
      elim (Q.find_by_apply_key dto.apply_idempotency_key scope db.loans) [
        | some existing ↦ (ok existing, db)
        | none ↦ insert_application now dto scope db
      ]

  unfoldable pub apply_for_loan : ℕ → ApplyLoanDto → ℕ → Action (LoanDb S) Loan
  apply_for_loan now dto actor =
      if not (dto.borrower_user_id == actor)
      then throw (forbidden "Cannot submit a loan application for another user")
      else transaction (apply_in_transaction now dto (text_or [] dto.apply_idempotency_scope_key))
