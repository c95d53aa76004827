-- ===== src/Payroll/Ended.antt =====
-- The items that the payouts of a batch have gone over.
use fintech_nova_pay.Common.{
  ℕ, ◌==◌, ◌≡◌, refl, ◌∙◌, ap, sym, inl, inr, Bool-cases, true, false, not, Bool, all, Option, none,
  some, List, [], ◌∷◌, All, ==-self, Option-cases, arith,
}
use mathlib.Core.Path.{subst}
use fintech_nova_pay.Common.Result.{Exception, Result-cases, ok}
use fintech_nova_pay.Common.Text.{trim}
use fintech_nova_pay.Ledger.Posting.{post_with_shared_manager}
use fintech_nova_pay.Payroll.Entity.{
  PayrollBatch, PayrollItem, ProcessPayrollBatchDto, is_pending_item,
}
use fintech_nova_pay.Payroll.Store.{PayrollStore, PayrollDb, enqueue_payroll_event}
use fintech_nova_pay.Payroll.Payouts.{
  payout_dto, paid_item, failed_item, pay_row, pay_item, mark_item_payout_failed, payout_round,
  payout_rounds, clearing_account_id, execute_payroll_item_payouts,
}
use fintech_nova_pay.Payroll.Items.{
  SettledRow, AllSettled, payout_round-items, payout_rounds-items, no_longer_pending,
}

-- No pending row.
abbrev NotPending : Option PayrollItem → Type 0
NotPending o = (i : PayrollItem) → o ≡ some i → is_pending_item i.status ≡ false

-- A row that is pending is listed as pending.
abbrev Listed : PayrollItem → Option PayrollItem → Type 0
Listed i o = is_pending_item i.status ≡ false → NotPending o

settled-NotPending : (o o' : Option PayrollItem) → SettledRow o o' → NotPending o → NotPending o'
settled-NotPending none none s h i f = h i f
settled-NotPending none (some j) s h i f = elim s [ ]
settled-NotPending (some j) none s h i f = elim s [ ]
settled-NotPending (some j) (some j') (inl e) h i f = h i (ap some (sym e) ∙ f)
settled-NotPending (some j) (some j') (inr e) h i f =
    let ended = no_longer_pending e in ground (arith, ended, f)

-- A row that is there and not pending.
abbrev pub ended_row : Option PayrollItem → Bool
ended_row none = false
ended_row (some i) = not (is_pending_item i.status)

settled-ended_row :
    (i : PayrollItem) (o : Option PayrollItem)
    → SettledRow (some i) o
    → NotPending o
    → ended_row o ≡ true
settled-ended_row i none s n = elim s [ ]
settled-ended_row i (some j) s n = let no = n j refl in rw no refl

module _ (S : PayrollStore) where
  open S use {items as I, batches as B}

  saved-NotPending :
      (id : ℕ) (row row' : PayrollItem) (t : I.Rows)
      → I.find id t ≡ some row
      → row'.id ≡ row.id
      → is_pending_item row'.status ≡ false
      → NotPending (I.find id (I.save row' t))
  saved-NotPending id row row' t f same n i g =
      let key = I.find-key id t f in
      let here : (row'.id == id) ≡ true = rw (same, key) (==-self id) in
      let found : I.find id (I.save row' t) ≡ some row' = rw (I.find-save id row' t, here) refl in
      ground (arith, found, g, n)

  mark-NotPending :
      (id : ℕ) (e : Exception) (db : PayrollDb S)
      → NotPending (I.find id (mark_item_payout_failed S id e db).items)
  unfolding mark_item_payout_failed failed_item
  mark-NotPending id e db = elim (Option-cases (I.find id db.items)) [
    | inl f ↦ λ i g. absurd (ground (arith, f, g))
    | inr (row, f) ↦ elim (Bool-cases (is_pending_item row.status)) [
      | inr p ↦ λ i g. ground (arith, f, p, g)
      | inl p ↦
          subst (λ x. NotPending (I.find id x)) (ground (arith, f, p))
            (saved-NotPending id row (failed_item e row) db.items f refl refl)
    ]
  ]

  paid-NotPending :
      (now : ℕ) (dto : ProcessPayrollBatchDto) (batch clearing id : ℕ) (db : PayrollDb S)
      {u : Unit {0}} {db' : PayrollDb S}
      → pay_item S now dto batch clearing id db ≡ (ok u, db')
      → NotPending (I.find id db'.items)
  unfolding pay_item pay_row enqueue_payroll_event paid_item
  paid-NotPending now dto batch clearing id db {u} {db'} h =
      elim (Option-cases (I.find id db.items)) [
        | inl f ↦ λ i g. absurd (ground (arith, f, h, g))
        | inr (row, f) ↦ elim (Bool-cases (is_pending_item row.status)) [
          | inr p ↦ λ i g. ground (arith, f, p, h, g)
          | inl p ↦ elim (Option-cases (B.find batch db.batches)) [
            | inl b ↦ absurd (ground (arith, f, p, b, h))
            | inr (header, b) ↦
                let post = payout_dto (S.uuid_text row.id) header row clearing in
                let done =
                  post_with_shared_manager S.ledger now post (trim post.correlation_id) db.ledger in
                elim (Result-cases done.0) [
                  | inr (e, x) ↦ absurd (ground (arith, f, p, b, x, h))
                  | inl (posted, x) ↦
                      subst (λ t. NotPending (I.find id t)) (ground (arith, f, p, b, x, h))
                        (saved-NotPending id row (paid_item posted.header.id row) db.items f refl
                          refl)
                ]
          ]
        ]
      ]

  payout_round-NotPending :
      (now : ℕ) (dto : ProcessPayrollBatchDto) (batch clearing : ℕ) (i : PayrollItem)
      (db : PayrollDb S)
      → Listed i (I.find i.id db.items)
      → NotPending (I.find i.id (payout_round S now dto batch clearing i db).items)
  unfolding payout_round
  payout_round-NotPending now dto batch clearing i db l =
      elim (Bool-cases (is_pending_item i.status)) [
        | inr n ↦ subst (λ t. NotPending (I.find i.id t)) (ground (arith, n)) (l n)
        | inl n ↦
            let body = pay_item S now dto batch clearing i.id db in
            elim (Result-cases body.0) [
              | inl (u, x) ↦
                  subst (λ t. NotPending (I.find i.id t)) (ground (arith, n, x))
                    (paid-NotPending now dto batch clearing i.id db {u = u} {db' = body.1}
                      (ground (arith, x)))
              | inr (e, x) ↦
                  subst (λ t. NotPending (I.find i.id t)) (ground (arith, n, x))
                    (mark-NotPending i.id e db)
            ]
      ]

  settled-Listed :
      (t t' : I.Rows) (is : List PayrollItem)
      → AllSettled S t t'
      → All (λ i. Listed i (I.find i.id t)) is
      → All (λ i. Listed i (I.find i.id t')) is
  settled-Listed t t' [] s x = tt
  settled-Listed t t' (i ∷ is) s (x, xs) = (
    λ n. settled-NotPending (I.find i.id t) (I.find i.id t') (s i.id) (x n),
    settled-Listed t t' is s xs,
  )

  payout_rounds-NotPending :
      (now : ℕ) (dto : ProcessPayrollBatchDto) (batch clearing : ℕ) (is : List PayrollItem)
      (db : PayrollDb S)
      → All (λ i. Listed i (I.find i.id db.items)) is
      → All (λ i. NotPending (I.find i.id (payout_rounds S now dto batch clearing is db).items)) is
  unfolding payout_rounds
  payout_rounds-NotPending now dto batch clearing [] db x = tt
  payout_rounds-NotPending now dto batch clearing (i ∷ is) db (x, xs) =
      let db₁ = payout_round S now dto batch clearing i db in
      let db₂ = payout_rounds S now dto batch clearing is db₁ in
      (
        settled-NotPending (I.find i.id db₁.items) (I.find i.id db₂.items)
            (payout_rounds-items S now dto batch clearing is db₁ i.id)
            (payout_round-NotPending now dto batch clearing i db x),
        payout_rounds-NotPending now dto batch clearing is db₁ (
            settled-Listed db.items db₁.items is (payout_round-items S now dto batch clearing i db)
              xs),
      )

  stored-Listed :
      (t : I.Rows) (is : List PayrollItem)
      → All (λ i. I.find i.id t ≡ some i) is
      → All (λ i. Listed i (I.find i.id t)) is
  stored-Listed t [] x = tt
  stored-Listed t (i ∷ is) (x, xs) = (λ n j g. ground (arith, x, n, g), stored-Listed t is xs)

  all_ended :
      (t t' : I.Rows) (is : List PayrollItem)
      → AllSettled S t t'
      → All (λ i. I.find i.id t ≡ some i) is
      → All (λ i. NotPending (I.find i.id t')) is
      → all (λ i. ended_row (I.find i.id t')) is ≡ true
  all_ended t t' [] s x n = refl
  all_ended t t' (i ∷ is) s (x, xs) (n, ns) =
      let row : SettledRow (some i) (I.find i.id t') =
        subst (λ o. SettledRow o (I.find i.id t')) x (s i.id) in
      let here = settled-ended_row i (I.find i.id t') row n in
      let rest = all_ended t t' is s xs ns in rw (here, rest) refl

  -- With a clearing account for the currency, the payouts leave every item of their list stored and
  -- not pending, if the list has the items as they are stored.
  pub payouts-ended :
      (now : ℕ) (dto : ProcessPayrollBatchDto) (b : PayrollBatch) (is : List PayrollItem)
      (db : PayrollDb S) {clearing : ℕ}
      → S.clearing b.currency ≡ some clearing
      → All (λ i. I.find i.id db.items ≡ some i) is
      → all
          (λ i. ended_row (I.find i.id (execute_payroll_item_payouts S now dto b is db).1.items))
          is
        ≡ true
  unfolding execute_payroll_item_payouts clearing_account_id
  payouts-ended now dto b is db {clearing} c x =
      let after = payout_rounds S now dto b.id clearing is db in
      let ended =
        all_ended db.items after.items is (payout_rounds-items S now dto b.id clearing is db) x
          (payout_rounds-NotPending now dto b.id clearing is db (stored-Listed db.items is x)) in
      ground (arith, c, ended)
