-- ===== src/Loans/Store.antt =====
-- What the loan services keep, the database behind it, and the outbox row that each of them writes.
use fintech_nova_pay.Common.{ℕ, ◌≡◌, Option, none, some, List}
use fintech_nova_pay.Common.Text.{Text}
use fintech_nova_pay.Common.Int.{ℤ}
use fintech_nova_pay.Common.Result.{ok}
use fintech_nova_pay.Common.Table.{Table}
use fintech_nova_pay.Decimal.{parse_scaled_amount, parse_amount_to_big_int4}
use fintech_nova_pay.Accounts.Entity.{Currency}
use fintech_nova_pay.Outbox.Entity.{OutboxRoutingKey, Payload}
use fintech_nova_pay.Outbox.Enqueue.{enqueue_in_transaction}
use fintech_nova_pay.Ledger.Store.{Inserted, stored}
use fintech_nova_pay.Payments.Store.{PaymentStore, PaymentDb}
use fintech_nova_pay.Loans.Entity.{Loan, loan_key, LoanStatus, LoanRepayment}

-- What `manager.create(Loan, …)` is given on an application.
pub record NewLoan : Type 0 where
  pub borrower_user_id : ℕ
  pub status : LoanStatus
  pub principal_amount : Text
  pub outstanding_principal : Text
  pub currency : Currency
  pub borrower_wallet_account_id : Option ℕ
  pub loan_funding_account_id : Option ℕ
  pub interest_rate_bps : Option ℕ
  pub term_months : Option ℕ
  pub maturity_date : Option ℕ
  pub apply_idempotency_key : Text
  pub apply_idempotency_scope_key : Text
  pub approved_at : Option ℕ

abbrev pub loan_with_id : ℕ → NewLoan → Loan
loan_with_id i n = record {
  id = i;
  borrower_user_id = n.borrower_user_id;
  status = n.status;
  principal_amount = n.principal_amount;
  outstanding_principal = n.outstanding_principal;
  currency = n.currency;
  borrower_wallet_account_id = n.borrower_wallet_account_id;
  loan_funding_account_id = n.loan_funding_account_id;
  interest_rate_bps = n.interest_rate_bps;
  term_months = n.term_months;
  maturity_date = n.maturity_date;
  apply_idempotency_key = n.apply_idempotency_key;
  apply_idempotency_scope_key = n.apply_idempotency_scope_key;
  disbursement_payment_id = none;
  disbursement_correlation_id = none;
  last_repayment_payment_id = none;
  approved_at = n.approved_at;
  disbursed_at = none;
  closed_at = none;
  rejected_at = none;
  marked_overdue_at = none;
}

-- A loan with its two amounts as the columns spell them.
abbrev pub reread_loan : (Text → Text) → Loan → Loan
reread_loan column l = record l {
  principal_amount = column l.principal_amount;
  outstanding_principal = column l.outstanding_principal;
}

-- `loans`: unique by the key and scope of the application.
pub record LoanTable : Type 1 where
  -- The text that a column of type numeric(19,4) gives back for an amount: '12.5' is '12.5000'.
  pub column : Text → Text
  pub column-value :
      (s : Text) {v : ℤ} → parse_scaled_amount s ≡ ok v → parse_amount_to_big_int4 (column s) ≡ ok v
  pub table : Table Loan loan_key
  pub find_by_apply_key : Text → Text → table.Rows → Option Loan
  pub insert : NewLoan → table.Rows → Inserted table.Rows
  -- `ACTIVE` with a maturity before the cutoff.
  pub find_active_with_maturity_before : ℕ → table.Rows → List Loan
  pub insert-find_by_apply_key :
      (n : NewLoan) (t : table.Rows) {i : ℕ} {t' : table.Rows}
      → insert n t ≡ stored i t'
      → find_by_apply_key n.apply_idempotency_key n.apply_idempotency_scope_key t'
        ≡ some (reread_loan column (loan_with_id i n))

-- `loan_repayments`
pub record RepaymentTable : Type 1 where
  -- What the numeric column of the amount gives back.
  pub column : Text → Text
  pub Rows : Type 0
  pub find_by_payment : ℕ → ℕ → Rows → Option LoanRepayment
  pub save : LoanRepayment → Rows → Rows
  pub find_by_payment-save :
      (r : LoanRepayment) (t : Rows)
      → find_by_payment r.loan_id r.payment_id (save r t)
        ≡ some (record r { amount = column r.amount })

pub record LoanStore : Type 1 where
  pub money : PaymentStore
  pub loans : LoanTable
  pub repayments : RepaymentTable

pub record LendingDb (Money Loans Repayments : Type 0) : Type 0 where
  pub money : Money
  pub loans : Loans
  pub repayments : Repayments

abbrev pub LoanDb : LoanStore → Type 0
LoanDb S = LendingDb (PaymentDb S.money) S.loans.table.Rows S.repayments.Rows

module _ (S : LoanStore) where
  open S.money use {ledger as L}

  -- `enqueueInTransaction`, the correlation being the loan's identifier.
  unfoldable pub enqueue_loan_event :
      ℕ → OutboxRoutingKey → ℕ → Payload → PaymentDb S.money → PaymentDb S.money
  enqueue_loan_event now key loan payload db = record db {
    ledger = record (db.ledger) {
      outbox =
          enqueue_in_transaction (L.events) now
            (record {
              routing_key = key;
              payload = payload;
              correlation_id = some (S.money.uuid_text loan);
              occurred_at = now;
            })
            (db.ledger.outbox);
    };
  }
