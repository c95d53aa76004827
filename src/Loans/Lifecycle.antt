-- ===== src/Loans/Lifecycle.antt =====
-- The life of a loan, as a step relation on its status.
use fintech_nova_pay.Common.{
  ℕ, ◌≡◌, refl, sym, ◌∙◌, ◌==◌, ==→eq, true, inl, inr, Option, none, some, Bool-cases, arith,
}
use fintech_nova_pay.Common.Int.{ℤ, pos, eqb_ℤ}
use fintech_nova_pay.Common.Text.{Text}
use fintech_nova_pay.Payments.Entity.{Payment}
use fintech_nova_pay.Loans.Entity.{
  Loan, LoanStatus, draft, pending_review, approved, active, overdue, closed, rejected,
  is_active_loan, is_disbursable, is_repayable,
}
use fintech_nova_pay.Loans.Store.{LoanStore}
use fintech_nova_pay.Loans.Disburse.{disbursed}
use fintech_nova_pay.Loans.Repay.{repaid}

-- The steps that the statuses are meant to take.
pub data LoanMoves : LoanStatus → LoanStatus → Type 0 where
  paying_out : {s : LoanStatus} → is_disbursable s ≡ true → LoanMoves s active
  closing : {s : LoanStatus} → is_repayable s ≡ true → LoanMoves s closed
  falling_due : LoanMoves active overdue

pub data LoanReaches : LoanStatus → LoanStatus → Type 0 where
  stay : {s : LoanStatus} → LoanReaches s s
  move : {s t u : LoanStatus} → LoanMoves s t → LoanReaches t u → LoanReaches s u

LoanReaches-trans : {s t u : LoanStatus} → LoanReaches s t → LoanReaches t u → LoanReaches s u
LoanReaches-trans stay y = y
LoanReaches-trans (move m x) y = move m (LoanReaches-trans x y)

-- The same loan, further on.
pub record LoanEvolved (l l' : Loan) : Type 0 where
  pub id : l'.id ≡ l.id
  pub borrower : l'.borrower_user_id ≡ l.borrower_user_id
  pub principal : l'.principal_amount ≡ l.principal_amount
  pub currency : l'.currency ≡ l.currency
  pub status : LoanReaches l.status l'.status

abbrev pub Kept : Option Loan → Option Loan → Type 0
Kept none none = Unit
Kept (some l) (some l') = LoanEvolved l l'
Kept _ _ = ⊥

LoanEvolved-refl : (l : Loan) → LoanEvolved l l
LoanEvolved-refl l = record {
  id = refl;
  borrower = refl;
  principal = refl;
  currency = refl;
  status = stay;
}

pub Kept-refl : (o : Option Loan) → Kept o o
Kept-refl none = tt
Kept-refl (some l) = LoanEvolved-refl l

pub Kept-trans : (a b c : Option Loan) → Kept a b → Kept b c → Kept a c
Kept-trans none none none x y = tt
Kept-trans none none (some l) x y = elim y [ ]
Kept-trans none (some l) c x y = elim x [ ]
Kept-trans (some l) none c x y = elim x [ ]
Kept-trans (some l) (some m) none x y = elim y [ ]
Kept-trans (some l) (some m) (some n) x y = record {
  id = y.id ∙ x.id;
  borrower = y.borrower ∙ x.borrower;
  principal = y.principal ∙ x.principal;
  currency = y.currency ∙ x.currency;
  status = LoanReaches-trans x.status y.status;
}

pub disbursed-LoanEvolved :
    (now : ℕ) (corr : Text) (p : Payment) (l : Loan)
    → is_disbursable l.status ≡ true
    → LoanEvolved l (disbursed now corr p l)
unfolding disbursed
disbursed-LoanEvolved now corr p l h = record {
  id = refl;
  borrower = refl;
  principal = refl;
  currency = refl;
  status = move (paying_out h) stay;
}

pub repaid-LoanEvolved :
    (now payment : ℕ) (outstanding : Text) (v : ℤ) (l : Loan)
    → is_repayable l.status ≡ true
    → LoanEvolved l (repaid now payment outstanding v l)
unfolding repaid
repaid-LoanEvolved now payment outstanding v l h = elim (Bool-cases (eqb_ℤ v (pos 0))) [
  | inl z ↦ rw z (record {
    id = refl;
    borrower = refl;
    principal = refl;
    currency = refl;
    status = move (closing h) stay;
  })
  | inr z ↦
      rw z (record { id = refl; borrower = refl; principal = refl; currency = refl; status = stay })
]

pub is_active_loan→eq : (s : LoanStatus) → is_active_loan s ≡ true → s ≡ active
is_active_loan→eq active h = refl
is_active_loan→eq draft h = absurd (ground arith)
is_active_loan→eq pending_review h = absurd (ground arith)
is_active_loan→eq approved h = absurd (ground arith)
is_active_loan→eq overdue h = absurd (ground arith)
is_active_loan→eq closed h = absurd (ground arith)
is_active_loan→eq rejected h = absurd (ground arith)

module _ (S : LoanStore) where
  open S use {loans as Q}

  -- Every loan is the same loan, further on, and none is new or gone.
  abbrev pub LoansEvolved : Q.table.Rows → Q.table.Rows → Type 0
  LoansEvolved t t' = (k : ℕ) → Kept (Q.table.find k t) (Q.table.find k t')

  save-LoansEvolved :
      (id : ℕ) (l l' : Loan) (t : Q.table.Rows)
      → Q.table.find id t ≡ some l
      → LoanEvolved l l'
      → LoansEvolved t (Q.table.save l' t)
  save-LoansEvolved id l l' t f e k = elim (Bool-cases (l'.id == k)) [
    | inl same ↦
        let key = Q.table.find-key id t f in
        let here : id ≡ k = sym key ∙ sym e.id ∙ ==→eq l'.id k same in
        rw (Q.table.find-save k l' t, same, ← here, f) e
    | inr other ↦ rw (Q.table.find-save k l' t, other) (Kept-refl (Q.table.find k t))
  ]

  -- What a handler has done to the loans: nothing, or one loan saved, further on.
  pub data Touched (t t' : Q.table.Rows) : Type 0 where
    untouched : t' ≡ t → Touched t t'
    saved :
        (id : ℕ) (l l' : Loan)
        → Q.table.find id t ≡ some l
        → LoanEvolved l l'
        → t' ≡ Q.table.save l' t
        → Touched t t'

  pub Touched-LoansEvolved : {t t' : Q.table.Rows} → Touched t t' → LoansEvolved t t'
  Touched-LoansEvolved {t} (untouched e) k = rw e (Kept-refl (Q.table.find k t))
  Touched-LoansEvolved {t} (saved id l l' f e s) k = rw s (save-LoansEvolved id l l' t f e k)
