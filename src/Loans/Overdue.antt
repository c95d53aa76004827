-- ===== src/Loans/Overdue.antt =====
-- `sweepOverdueLoans` of modules/loans/service/loan-overdue.service.ts.
use fintech_nova_pay.Common.{ℕ, ltb, not, none, some, List, [], ◌∷◌, if◌then◌else◌}
use fintech_nova_pay.Outbox.Entity.{loan_overdue, Payload, Value}
use fintech_nova_pay.Loans.Entity.{Loan, LoanStatus, is_active_loan}
use fintech_nova_pay.Loans.Store.{LoanStore, LoanDb, enqueue_loan_event}

abbrev pub overdue_payload : ℕ → ℕ → ℕ → Payload
overdue_payload now loan maturity =
    ("eventName", Value.word "loan.overdue")
    ∷ ("loanId", Value.id loan)
    ∷ ("maturityDate", Value.time maturity)
    ∷ ("occurredAt", Value.time now)
    ∷ []

module _ (S : LoanStore) where
  open S use {loans as Q}

  -- The rest of one round: an `ACTIVE` loan whose maturity lies before the cutoff.
  unfoldable pub mark_overdue : ℕ → ℕ → Loan → LoanDb S → LoanDb S
  mark_overdue now cutoff loan db = elim loan.maturity_date [
    | none ↦ db
    | some maturity ↦ if not (ltb maturity cutoff) then db else record db {
      loans =
          Q.table.save (record loan { status = LoanStatus.overdue; marked_overdue_at = some now })
            db.loans;
      money =
          enqueue_loan_event S now loan_overdue loan.id (overdue_payload now loan.id maturity)
            db.money;
    }
  ]

  -- One round, a transaction of its own. It throws nothing, so there is nothing to catch.
  unfoldable pub sweep_loan : ℕ → ℕ → ℕ → LoanDb S → LoanDb S
  sweep_loan now cutoff id db = elim (Q.table.find id db.loans) [
    | none ↦ db
    | some loan ↦ if not (is_active_loan loan.status) then db else mark_overdue now cutoff loan db
  ]

  unfoldable pub sweep_candidates : ℕ → ℕ → List Loan → LoanDb S → LoanDb S
  sweep_candidates now cutoff [] db = db
  sweep_candidates now cutoff (c ∷ cs) db =
      sweep_candidates now cutoff cs (sweep_loan now cutoff c.id db)

  unfoldable pub sweep_overdue_loans : ℕ → ℕ → LoanDb S → LoanDb S
  sweep_overdue_loans now cutoff db =
      sweep_candidates now cutoff (Q.find_active_with_maturity_before cutoff db.loans) db
