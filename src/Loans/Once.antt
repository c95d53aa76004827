-- ===== src/Loans/Once.antt =====
-- Applications and disbursements that are repeated.
use fintech_nova_pay.Common.{
  ℕ, ◌≡◌, refl, ==-self, true, false, ◌&&◌, ◌⊎◌, Option, none, some, inl, inr, Bool-cases,
  Option-cases, arith,
}
use fintech_nova_pay.Common.Result.{ok, err, Exception, Result-cases}
use fintech_nova_pay.Common.Action.{transaction-eq-ok}
use fintech_nova_pay.Common.Dict.{is_some}
use fintech_nova_pay.Common.Text.{Text}
use fintech_nova_pay.Payments.Requests.{payment_ledger_correlation_id}
use fintech_nova_pay.Payments.Orchestrator.{submit_payment_with_shared_manager}
use fintech_nova_pay.Loans.Entity.{
  Loan, LoanStatus, DisburseLoanDto, is_active_loan, is_disbursable,
}
use fintech_nova_pay.Loans.Store.{LoanStore, LoanDb, reread_loan}
use fintech_nova_pay.Loans.Lifecycle.{
  Kept, LoanMoves, LoanReaches, paying_out, closing, falling_due, stay, move, is_active_loan→eq,
}
use fintech_nova_pay.Loans.Evolution.{disbursement_accounts-disbursable}
use fintech_nova_pay.Loans.Runs.{LoanRun, runs-LoansEvolved}
use fintech_nova_pay.Loans.Disburse.{
  is_completed, disburse_dto, disbursement_accounts, disbursed, record_disbursement, pay_out,
  disburse_loan, disburse_in_transaction, disburse_approved_to_wallet,
}

active-past : (s : LoanStatus) → is_active_loan s ≡ true → is_disbursable s ≡ false
active-past s h = rw (is_active_loan→eq s h) refl

-- No step leads back to a status that a disbursement takes.
moved-past : {s t : LoanStatus} → LoanMoves s t → is_disbursable t ≡ false
moved-past (paying_out h) = refl
moved-past (closing h) = refl
moved-past falling_due = refl

no_way_back :
    {s t : LoanStatus} → LoanReaches s t → is_disbursable s ≡ false → is_disbursable t ≡ false
no_way_back stay p = p
no_way_back (move m x) p = no_way_back x (moved-past m)

module _ (S : LoanStore) where
  open S use {loans as Q}

  -- The loan as it was returned, or with its amounts as the columns spell them.
  abbrev pub SameLoan : Loan → Loan → Type 0
  SameLoan l l' = (l' ≡ l) ⊎ (l' ≡ reread_loan Q.column l)

  -- What an application that returned has left under its key and scope.
  abbrev Found : Text → Text → Loan → LoanDb S → Type 0
  Found key scope loan db =
      (l : Loan) × (Q.find_by_apply_key key scope db.loans ≡ some l) × SameLoan loan l

  -- What a disbursement that returned has left under the loan's identifier.
  abbrev PaidOut : ℕ → Loan → LoanDb S → Type 0
  PaidOut id loan db =
      (Q.table.find id db.loans ≡ some loan)
      × ((is_active_loan loan.status && is_some loan.disbursement_payment_id) ≡ true)

  pay_out-PaidOut :
      (now : ℕ) (dto : DisburseLoanDto) (actor : ℕ) (loan : Loan) (wallet funding : ℕ)
      (db : LoanDb S) {loan' : Loan} {db' : LoanDb S}
      → pay_out S now dto actor loan wallet funding db ≡ (ok loan', db')
      → PaidOut loan.id loan' db'
  unfolding pay_out record_disbursement disbursed
  pay_out-PaidOut now dto actor loan wallet funding db h =
      let pay_dto = disburse_dto (S.money.uuid_text loan.id) dto loan wallet funding in
      let paid = submit_payment_with_shared_manager S.money now pay_dto actor db.money in
      elim (Result-cases paid.0) [
        | inr (e, x) ↦ absurd (ground (arith, x, h))
        | inl (p, x) ↦ elim (Bool-cases (is_completed p.status)) [
          | inr c ↦ absurd (ground (arith, x, c, h))
          | inl c ↦
              let saved =
                disbursed now (payment_ledger_correlation_id S.money.uuid_text p.id) p loan in
              let there = Q.table.find-save loan.id saved db.loans in
              let same = ==-self loan.id in
              (ground (arith, x, c, h, there, same), ground (arith, x, c, h))
        ]
      ]

  disburse_in_transaction-PaidOut :
      (now id : ℕ) (dto : DisburseLoanDto) (actor : ℕ) (db : LoanDb S) {loan' : Loan}
      {db' : LoanDb S}
      → disburse_in_transaction S now id dto actor db ≡ (ok loan', db')
      → PaidOut id loan' db'
  unfolding disburse_in_transaction disburse_loan
  disburse_in_transaction-PaidOut now id dto actor db {loan'} {db'} h =
      elim (Option-cases (Q.table.find id db.loans)) [
        | inl f ↦ absurd (ground (arith, f, h))
        | inr (loan, f) ↦
            elim (Bool-cases (is_active_loan loan.status && is_some loan.disbursement_payment_id)) [
              | inl a ↦ (ground (arith, f, a, h), ground (arith, f, a, h))
              | inr a ↦ elim (Result-cases (disbursement_accounts loan)) [
                | inr (e, x) ↦ absurd (ground (arith, f, a, x, h))
                | inl ((wallet, funding), x) ↦
                    let key = Q.table.find-key id db.loans f in
                    let done =
                      pay_out-PaidOut now dto actor loan wallet funding db {loan' = loan'}
                        {db' = db'} (ground (arith, f, a, x, h)) in
                    (rw (← key) done.0, done.1)
              ]
            ]
      ]

  -- A loan that has been paid out: it takes no disbursement any more.
  abbrev PastPayout : Option Loan → Type 0
  PastPayout none = ⊥
  PastPayout (some l) = is_disbursable l.status ≡ false

  Kept-PastPayout : (o o' : Option Loan) → Kept o o' → PastPayout o → PastPayout o'
  Kept-PastPayout none o' k p = elim p [ ]
  Kept-PastPayout (some l) none k p = elim k [ ]
  Kept-PastPayout (some l) (some l') k p = no_way_back k.status p

  -- What a disbursement does with a loan that was paid out: nothing, whether it returns the row that
  -- is there, `ACTIVE` and linked to its payment, or throws.
  abbrev pub Refused : (now id : ℕ) (dto : DisburseLoanDto) (actor : ℕ) (db : LoanDb S) → Type 0
  Refused now id dto actor db =
      (l : Loan) × (Q.table.find id db.loans ≡ some l)
      × ((((is_active_loan l.status && is_some l.disbursement_payment_id) ≡ true)
            × (disburse_approved_to_wallet S now id dto actor db ≡ (ok l, db)))
          ⊎ (((is_active_loan l.status && is_some l.disbursement_payment_id) ≡ false)
              × ((e : Exception) × (disburse_approved_to_wallet S now id dto actor db
                    ≡ (err e, db)))))

  PastPayout-Refused :
      (now id : ℕ) (dto : DisburseLoanDto) (actor : ℕ) (db : LoanDb S)
      → PastPayout (Q.table.find id db.loans)
      → Refused now id dto actor db
  unfolding disburse_approved_to_wallet disburse_in_transaction disburse_loan
  PastPayout-Refused now id dto actor db p = elim (Option-cases (Q.table.find id db.loans)) [
    | inl f ↦ absurd (rw f at p)
    | inr (l, f) ↦
        elim (Bool-cases (is_active_loan l.status && is_some l.disbursement_payment_id)) [
          | inl a ↦ (l, f, inl (a, ground (arith, f, a)))
          | inr a ↦ elim (Result-cases (disbursement_accounts l)) [
            | inl (ab, x) ↦
                let yes = disbursement_accounts-disbursable l x in
                let no : is_disbursable l.status ≡ false = rw f at p in
                absurd (ground (arith, yes, no))
            | inr (e, x) ↦ (l, f, inr (a, (e, ground (arith, f, a, x))))
          ]
        ]
  ]

  -- A loan is paid out once. After a disbursement that returned, the next one, with whatever command
  -- and by whatever actor, returns the same loan and changes nothing; and one after any further
  -- disbursements, repayments and sweeps changes nothing either: it returns the row that is there if
  -- that is `ACTIVE` and linked to its payment, and else throws.
  pub disburse-once :
      (now id : ℕ) (dto : DisburseLoanDto) (actor : ℕ) (db : LoanDb S) {loan : Loan}
      {db' db'' : LoanDb S}
      → disburse_approved_to_wallet S now id dto actor db ≡ (ok loan, db')
      → LoanRun S db' db''
      → (now' : ℕ) (dto' : DisburseLoanDto) (actor' : ℕ)
      → (disburse_approved_to_wallet S now' id dto' actor' db' ≡ (ok loan, db'))
        × Refused now' id dto' actor' db''
  unfolding disburse_approved_to_wallet disburse_in_transaction disburse_loan
  disburse-once now id dto actor db {loan} {db'} {db''} h run now' dto' actor' =
      let (there, ended) =
        disburse_in_transaction-PaidOut now id dto actor db {loan' = loan} {db' = db'} (
          transaction-eq-ok (disburse_in_transaction S now id dto actor) db {a = loan} {s' = db'}
            h) in
      let past : is_disbursable loan.status ≡ false =
        active-past loan.status (ground (arith, ended)) in
      let then : PastPayout (Q.table.find id db'.loans) = rw there past in
      let later =
        Kept-PastPayout (Q.table.find id db'.loans) (Q.table.find id db''.loans)
          (runs-LoansEvolved S run id) then in
      (ground (arith, there, ended), PastPayout-Refused now' id dto' actor' db'' later)
