-- ===== src/Loans/Runs.antt =====
-- Whole histories of loans: disbursements, repayments and overdue sweeps in any order.
use fintech_nova_pay.Common.{ℕ}
use fintech_nova_pay.Loans.Entity.{DisburseLoanDto, RepayLoanDto}
use fintech_nova_pay.Loans.Store.{LoanStore, LoanDb}
use fintech_nova_pay.Loans.Disburse.{disburse_approved_to_wallet}
use fintech_nova_pay.Loans.Repay.{repay_from_wallet}
use fintech_nova_pay.Loans.Overdue.{sweep_overdue_loans}
use fintech_nova_pay.Loans.Lifecycle.{Kept-refl, Kept-trans, LoansEvolved}
use fintech_nova_pay.Loans.Evolution.{disburse-LoansEvolved, repay-LoansEvolved, sweep-LoansEvolved}

module _ (S : LoanStore) where
  open S use {loans as Q}

  -- One call of the service, whatever its outcome.
  pub data LoanCall (db : LoanDb S) : LoanDb S → Type 0 where
    disbursing :
        (now id : ℕ) (dto : DisburseLoanDto) (actor : ℕ)
        → LoanCall db (disburse_approved_to_wallet S now id dto actor db).1
    repaying :
        (now id : ℕ) (dto : RepayLoanDto) (actor : ℕ)
        → LoanCall db (repay_from_wallet S now id dto actor db).1
    sweeping : (now cutoff : ℕ) → LoanCall db (sweep_overdue_loans S now cutoff db)

  pub data LoanRun : LoanDb S → LoanDb S → Type 0 where
    ended : {db : LoanDb S} → LoanRun db db
    calls : {db db₁ db₂ : LoanDb S} → LoanCall db db₁ → LoanRun db₁ db₂ → LoanRun db db₂

  call-LoansEvolved : {db db' : LoanDb S} → LoanCall db db' → LoansEvolved S db.loans db'.loans
  call-LoansEvolved {db} (disbursing now id dto actor) = disburse-LoansEvolved S now id dto actor db
  call-LoansEvolved {db} (repaying now id dto actor) = repay-LoansEvolved S now id dto actor db
  call-LoansEvolved {db} (sweeping now cutoff) = sweep-LoansEvolved S now cutoff db

  -- Any sequence of disbursements, repayments and sweeps, whatever their outcomes, keeps every loan
  -- with its borrower, principal and currency, and moves statuses only along the steps paying out,
  -- closing and falling due.
  pub runs-LoansEvolved : {db db' : LoanDb S} → LoanRun db db' → LoansEvolved S db.loans db'.loans
  runs-LoansEvolved {db} ended k = Kept-refl (Q.table.find k db.loans)
  runs-LoansEvolved {db} {db'} (calls {db₁ = db₁} c r) k =
      Kept-trans (Q.table.find k db.loans) (Q.table.find k db₁.loans) (Q.table.find k db'.loans)
        (call-LoansEvolved c k) (runs-LoansEvolved r k)
