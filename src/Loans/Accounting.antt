-- ===== src/Loans/Accounting.antt =====
-- What a loan's operations do to the outstanding amount.
use fintech_nova_pay.Common.{
  ℕ, ◌-◌, ◌≤◌, ◌<◌, ◌≡◌, refl, sym, ==-self, true, none, some, inl, inr, Bool-cases, Option-cases,
  arith,
}
use mathlib.Core.Path.{subst}
use fintech_nova_pay.Common.Int.{ℤ, pos, eqb_ℤ}
use fintech_nova_pay.Common.Result.{Result, ok, Result-cases}
use fintech_nova_pay.Common.Action.{transaction-eq-ok}
use fintech_nova_pay.Common.Text.{Text}
use fintech_nova_pay.Decimal.{parse_amount_to_big_int4, amount_gte4}
use fintech_nova_pay.Decimal.LoanAmounts.{subtract_amount4_exact}
use fintech_nova_pay.Payments.Entity.{Payment}
use fintech_nova_pay.Payments.Store.{PaymentDb}
use fintech_nova_pay.Payments.Orchestrator.{submit_payment_with_shared_manager}
use fintech_nova_pay.Loans.Entity.{Loan, LoanStatus, LoanRepayment, RepayLoanDto}
use fintech_nova_pay.Loans.Store.{LoanStore, LoanDb}
use fintech_nova_pay.Loans.Disburse.{is_completed}
use fintech_nova_pay.Loans.Repay.{
  repay_dto, check_amount, check_repayable, repaid, repayment_row, save_repayment, apply_repayment,
  record_repayment, collect, repay_loan, repay_in_transaction, repay_from_wallet,
}

check_repayable-covered :
    (loan : Loan) (dto : RepayLoanDto) (actor : ℕ) {x y a : ℕ}
    → parse_amount_to_big_int4 loan.outstanding_principal ≡ ok (pos x)
    → parse_amount_to_big_int4 dto.amount ≡ ok (pos y)
    → check_repayable loan dto actor ≡ ok a
    → y ≤ x
unfolding check_repayable amount_gte4
check_repayable-covered loan dto actor p q h = ground (arith, p, q, h)

-- The outstanding amount has gone down by the amount, and the loan is closed if nothing is left.
pub record Counted (x y : ℕ) (l l' : Loan) : Type 0 where
  pub covered : y ≤ x
  pub outstanding : parse_amount_to_big_int4 l'.outstanding_principal ≡ ok (pos (x - y))
  pub closed : x ≡ y → l'.status ≡ LoanStatus.closed
  pub still_open : y < x → l'.status ≡ l.status

repaid-Counted :
    (now payment : ℕ) (outstanding : Text) (l : Loan) {x y : ℕ}
    → y ≤ x
    → parse_amount_to_big_int4 outstanding ≡ ok (pos (x - y))
    → Counted x y l (repaid now payment outstanding (pos (x - y)) l)
unfolding repaid
repaid-Counted now payment outstanding l {x} {y} c p =
    elim (Bool-cases (eqb_ℤ (pos (x - y)) (pos 0))) [
      | inl z ↦ rw z (record {
        covered = c;
        outstanding = p;
        closed = λ e. refl;
        still_open = λ h. absurd (ground arith);
      })
      | inr z ↦ rw z (record {
        covered = c;
        outstanding = p;
        closed = λ e. absurd (ground arith);
        still_open = λ h. refl;
      })
    ]

repaid-id :
    (now payment : ℕ) (outstanding : Text) (v : ℤ) (l : Loan)
    → (repaid now payment outstanding v l).id ≡ l.id
unfolding repaid
repaid-id now payment outstanding v l = ground arith

module _ (S : LoanStore) where
  open S use {loans as Q, repayments as R}

  -- What the payment p has done to the loan: it had not been counted, and is counted now, with the
  -- loan and a row of the repayment stored; or a row of it was there, and loans and rows are as they
  -- were.
  pub data Applied (x y id : ℕ) (amount : Text) (p : Payment) (l l' : Loan) (db db' : LoanDb S)
      : Type 0 where
    first_time :
        R.find_by_payment id p.id db.repayments ≡ none
        → Counted x y l l'
        → Q.table.find id db'.loans ≡ some l'
        → R.find_by_payment id p.id db'.repayments
          ≡ some (repayment_row S.money.uuid_text id (R.column amount) p.id)
        → Applied x y id amount p l l' db db'
    counted_before :
        (row : LoanRepayment)
        → R.find_by_payment id p.id db.repayments ≡ some row
        → l' ≡ l
        → db'.loans ≡ db.loans
        → db'.repayments ≡ db.repayments
        → Applied x y id amount p l l' db db'

  -- The payment that a repayment submits.
  abbrev pub submitted : ℕ → RepayLoanDto → ℕ → Loan → ℕ → LoanDb S → Result Payment
  submitted now dto actor loan funding db =
      (submit_payment_with_shared_manager S.money now
        (repay_dto (S.money.uuid_text loan.id) dto loan funding) actor db.money).0

  -- A repayment that has returned: its payment completed and is applied to the loan.
  pub record Repaid (now x y id : ℕ) (dto : RepayLoanDto) (actor : ℕ) (l l' : Loan)
      (db db' : LoanDb S) : Type 0 where
    pub funding : ℕ
    pub payment : Payment
    pub returned : submitted now dto actor l funding db ≡ ok payment
    pub completed : is_completed payment.status ≡ true
    pub applied : Applied x y id dto.amount payment l l' db db'

  apply_repayment-Counted :
      (now : ℕ) (amount : Text) (loan : Loan) (p : Payment) (db : LoanDb S) {x y : ℕ} {loan' : Loan}
      {db' : LoanDb S}
      → parse_amount_to_big_int4 loan.outstanding_principal ≡ ok (pos x)
      → parse_amount_to_big_int4 amount ≡ ok (pos y)
      → y ≤ x
      → apply_repayment S now amount loan p db ≡ (ok loan', db')
      → Counted x y loan loan'
        × (Q.table.find loan.id db'.loans ≡ some loan')
        × (R.find_by_payment loan.id p.id db'.repayments
            ≡ some (repayment_row S.money.uuid_text loan.id (R.column amount) p.id))
  unfolding apply_repayment save_repayment
  apply_repayment-Counted now amount loan p db {x} {y} {loan'} {db'} px py c h =
      let (r, s, pr) = (subtract_amount4_exact loan.outstanding_principal amount px py).0 c in
      let after = repaid now p.id r (pos (x - y)) loan in
      let same_id : after.id ≡ loan.id = repaid-id now p.id r (pos (x - y)) loan in
      let there : Q.table.find loan.id (Q.table.save after db.loans) ≡ some after =
        rw (Q.table.find-save loan.id after db.loans, same_id, ==-self loan.id) refl in
      let is : after ≡ loan' = ground (arith, s, pr, h) in
      let stored : Q.table.save after db.loans ≡ db'.loans = ground (arith, s, pr, h) in
      let row : ℕ → LoanRepayment = λ i. repayment_row S.money.uuid_text i amount p.id in
      let counted : R.save (row after.id) db.repayments ≡ db'.repayments =
        ground (arith, s, pr, h) in
      let found : R.find_by_payment loan.id p.id (R.save (row after.id) db.repayments)
          ≡ some (repayment_row S.money.uuid_text loan.id (R.column amount) p.id) =
        rw (same_id) (R.find_by_payment-save (row loan.id) db.repayments) in
      (
        rw (← is) (repaid-Counted now p.id r loan c pr),
        rw (← is, ← stored) there,
        rw (← counted) found,
      )

  record_repayment-Applied :
      (now : ℕ) (amount : Text) (loan : Loan) (p : Payment) (db : LoanDb S) {x y : ℕ} {loan' : Loan}
      {db' : LoanDb S}
      → Q.table.find loan.id db.loans ≡ some loan
      → parse_amount_to_big_int4 loan.outstanding_principal ≡ ok (pos x)
      → parse_amount_to_big_int4 amount ≡ ok (pos y)
      → y ≤ x
      → record_repayment S now amount loan p db ≡ (ok loan', db')
      → Applied x y loan.id amount p loan loan' db db'
  unfolding record_repayment
  record_repayment-Applied now amount loan p db {x} {y} {loan'} {db'} f px py c h =
      elim (Option-cases (S.repayments.find_by_payment loan.id p.id db.repayments)) [
        | inr (dupe, d) ↦
            counted_before dupe d (ground (arith, f, d, h)) (ground (arith, d, h))
              (ground (arith, d, h))
        | inl d ↦
            let (counted, stored, row) =
              apply_repayment-Counted now amount loan p db {loan' = loan'} {db' = db'} px py c
                (ground (arith, d, h)) in
            first_time d counted stored row
      ]

  -- The money plays no part in what is applied.
  Applied-money :
      {x y id : ℕ} {amount : Text} (p : Payment) {l l' : Loan} {db db' : LoanDb S}
      {m : PaymentDb S.money}
      → Applied x y id amount p l l' (record db { money = m }) db'
      → Applied x y id amount p l l' db db'
  Applied-money p (first_time n c s r) = first_time n c s r
  Applied-money p (counted_before row f e s r) = counted_before row f e s r

  collect-Repaid :
      (now : ℕ) (dto : RepayLoanDto) (actor : ℕ) (loan : Loan) (funding : ℕ) (db : LoanDb S)
      {x y : ℕ} {loan' : Loan} {db' : LoanDb S}
      → Q.table.find loan.id db.loans ≡ some loan
      → parse_amount_to_big_int4 loan.outstanding_principal ≡ ok (pos x)
      → parse_amount_to_big_int4 dto.amount ≡ ok (pos y)
      → y ≤ x
      → collect S now dto actor loan funding db ≡ (ok loan', db')
      → Repaid now x y loan.id dto actor loan loan' db db'
  unfolding collect
  collect-Repaid now dto actor loan funding db {x} {y} {loan'} {db'} f px py c h =
      let pay_dto = repay_dto (S.money.uuid_text loan.id) dto loan funding in
      let paid = submit_payment_with_shared_manager S.money now pay_dto actor db.money in
      elim (Result-cases paid.0) [
        | inr (e, r) ↦ absurd (ground (arith, r, h))
        | inl (p, r) ↦ elim (Bool-cases (is_completed p.status)) [
          | inr n ↦ absurd (ground (arith, r, n, h))
          | inl n ↦ record {
            funding = funding;
            payment = p;
            returned = r;
            completed = n;
            applied = Applied-money p (
                record_repayment-Applied now dto.amount loan p (record db { money = paid.1 })
                  {loan' = loan'} {db' = db'} f px py c (ground (arith, r, n, h)));
          }
        ]
      ]

  -- A repayment that returns, of an amount y on a loan with x outstanding, has a completed payment. If
  -- that payment had no repayment on the loan, y is at most x, exactly x - y is outstanding after it,
  -- the loan is closed when that is zero and else keeps its status, and the loan returned and a row
  -- of the repayment are stored. If it had one, the loan returned, the loans and the repayments are as
  -- they were.
  pub repay_from_wallet-exact :
      (now id : ℕ) (dto : RepayLoanDto) (actor : ℕ) (loan : Loan) (db : LoanDb S) {x y : ℕ}
      {loan' : Loan} {db' : LoanDb S}
      → Q.table.find id db.loans ≡ some loan
      → parse_amount_to_big_int4 loan.outstanding_principal ≡ ok (pos x)
      → parse_amount_to_big_int4 dto.amount ≡ ok (pos y)
      → repay_from_wallet S now id dto actor db ≡ (ok loan', db')
      → Repaid now x y id dto actor loan loan' db db'
  unfolding repay_from_wallet repay_in_transaction repay_loan
  repay_from_wallet-exact now id dto actor loan db {x} {y} {loan'} {db'} f px py h =
      let key = Q.table.find-key id db.loans f in
      elim (Result-cases (check_amount dto.amount)) [
        | inr (e, a) ↦ absurd (ground (arith, a, h))
        | inl (u, a) ↦
            let run =
              transaction-eq-ok (repay_in_transaction S now id dto actor) db {a = loan'} {s' = db'}
                (ground (arith, a, h)) in
            elim (Result-cases (check_repayable loan dto actor)) [
              | inr (e, r) ↦ absurd (ground (arith, f, r, run))
              | inl (funding, r) ↦
                  subst (λ i. Repaid now x y i dto actor loan loan' db db') key
                    (collect-Repaid now dto actor loan funding db {loan' = loan'} {db' = db'}
                      (subst (λ i. Q.table.find i db.loans ≡ some loan) (sym key) f) px py
                      (check_repayable-covered loan dto actor px py r) (ground (arith, f, r, run)))
            ]
      ]
