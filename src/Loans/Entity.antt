-- ===== src/Loans/Entity.antt =====
-- Loans, repayments and the loan commands (modules/loans/entities, enums, dto). Dates are
-- milliseconds; creation and update times are the database's.
use fintech_nova_pay.Common.{ℕ, Bool, true, false, Option}
use fintech_nova_pay.Common.Text.{Text}
use fintech_nova_pay.Accounts.Entity.{Currency}

pub data LoanStatus : Type 0 where
  draft pending_review approved active overdue closed rejected : LoanStatus

pub data LoanRepaymentStatus : Type 0 where
  pending completed failed : LoanRepaymentStatus

pub record Loan : Type 0 where
  pub id : ℕ
  pub borrower_user_id : ℕ
  pub status : LoanStatus
  pub principal_amount : Text
  pub outstanding_principal : Text
  pub currency : Currency
  pub borrower_wallet_account_id : Option ℕ
  pub loan_funding_account_id : Option ℕ
  pub interest_rate_bps : Option ℕ
  pub term_months : Option ℕ
  pub maturity_date : Option ℕ
  pub apply_idempotency_key : Text
  pub apply_idempotency_scope_key : Text
  pub disbursement_payment_id : Option ℕ
  pub disbursement_correlation_id : Option Text
  pub last_repayment_payment_id : Option ℕ
  pub approved_at : Option ℕ
  pub disbursed_at : Option ℕ
  pub closed_at : Option ℕ
  pub rejected_at : Option ℕ
  pub marked_overdue_at : Option ℕ

abbrev pub loan_key : Loan → ℕ
loan_key l = l.id

pub record LoanRepayment : Type 0 where
  pub loan_id : ℕ
  pub amount : Text
  pub status : LoanRepaymentStatus
  pub payment_id : ℕ
  pub payment_correlation_id : Text

pub record ApplyLoanDto : Type 0 where
  pub apply_idempotency_key : Text
  pub apply_idempotency_scope_key : Option Text
  pub borrower_user_id : ℕ
  pub principal_amount : Text
  pub currency : Currency
  pub borrower_wallet_account_id : Option ℕ
  pub loan_funding_account_id : Option ℕ
  pub interest_rate_bps : Option ℕ
  pub term_months : Option ℕ
  pub maturity_date : Option ℕ

pub record DisburseLoanDto : Type 0 where
  pub idempotency_key : Text
  pub idempotency_scope_key : Option Text
  pub reference : Text
  pub memo : Option Text

pub record RepayLoanDto : Type 0 where
  pub idempotency_key : Text
  pub idempotency_scope_key : Option Text
  pub reference : Text
  pub source_account_id : ℕ
  pub amount : Text
  pub memo : Option Text

abbrev pub is_active_loan : LoanStatus → Bool
is_active_loan active = true
is_active_loan _ = false

-- `APPROVED` or `PENDING_REVIEW`
abbrev pub is_disbursable : LoanStatus → Bool
is_disbursable approved = true
is_disbursable pending_review = true
is_disbursable _ = false

-- `ACTIVE` or `OVERDUE`
abbrev pub is_repayable : LoanStatus → Bool
is_repayable active = true
is_repayable overdue = true
is_repayable _ = false
