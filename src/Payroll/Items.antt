-- ===== src/Payroll/Items.antt =====
-- What the payouts do to the items.
use fintech_nova_pay.Common.{
  ℕ, ◌≡◌, refl, sym, ◌∙◌, ◌==◌, ==→eq, ◌⊎◌, inl, inr, true, false, Option, none, some, List, [],
  ◌∷◌, Bool-cases, Option-cases, arith,
}
use mathlib.Core.Path.{subst}
use fintech_nova_pay.Common.Result.{Exception, Result-cases}
use fintech_nova_pay.Common.Text.{trim}
use fintech_nova_pay.Ledger.Posting.{post_with_shared_manager}
use fintech_nova_pay.Payroll.Entity.{
  PayrollBatch, PayrollItem, completed, failed, ProcessPayrollBatchDto, is_pending_item,
}
use fintech_nova_pay.Payroll.Store.{PayrollStore, PayrollDb, enqueue_payroll_event}
use fintech_nova_pay.Payroll.Payouts.{
  payout_dto, paid_item, failed_item, clearing_account_id, pay_row, pay_item,
  mark_item_payout_failed, payout_round, payout_rounds, execute_payroll_item_payouts,
}

-- A pending item that has been completed or has failed, the same in what it pays to whom.
pub record Ended (i i' : PayrollItem) : Type 0 where
  pub was_pending : is_pending_item i.status ≡ true
  pub ended : (i'.status ≡ completed) ⊎ (i'.status ≡ failed)
  pub id : i'.id ≡ i.id
  pub batch : i'.batch_id ≡ i.batch_id
  pub employee : i'.employee_account_id ≡ i.employee_account_id
  pub amount : i'.amount ≡ i.amount
  pub currency : i'.currency ≡ i.currency

abbrev pub Settled : PayrollItem → PayrollItem → Type 0
Settled i i' = (i' ≡ i) ⊎ Ended i i'

abbrev pub SettledRow : Option PayrollItem → Option PayrollItem → Type 0
SettledRow none none = Unit
SettledRow (some i) (some i') = Settled i i'
SettledRow _ _ = ⊥

SettledRow-refl : (o : Option PayrollItem) → SettledRow o o
SettledRow-refl none = tt
SettledRow-refl (some i) = inl refl

pub no_longer_pending : {i i' : PayrollItem} → Ended i i' → is_pending_item i'.status ≡ false
no_longer_pending e = elim e.ended [ inl c ↦ rw c refl | inr f ↦ rw f refl ]

Settled-trans : (i j k : PayrollItem) → Settled i j → Settled j k → Settled i k
Settled-trans i j k (inl e) y = subst (λ x. Settled x k) e y
Settled-trans i j k (inr x) (inl f) = inr (subst (λ z. Ended i z) (sym f) x)
Settled-trans i j k (inr x) (inr y) =
    let no = no_longer_pending x in let yes = y.was_pending in absurd (ground (arith, no, yes))

SettledRow-trans : (a b c : Option PayrollItem) → SettledRow a b → SettledRow b c → SettledRow a c
SettledRow-trans none none none x y = tt
SettledRow-trans none none (some i) x y = elim y [ ]
SettledRow-trans none (some i) c x y = elim x [ ]
SettledRow-trans (some i) none c x y = elim x [ ]
SettledRow-trans (some i) (some j) none x y = elim y [ ]
SettledRow-trans (some i) (some j) (some k) x y = Settled-trans i j k x y

paid_item-Ended :
    (tx : ℕ) (i : PayrollItem) → is_pending_item i.status ≡ true → Ended i (paid_item tx i)
unfolding paid_item
paid_item-Ended tx i h = record {
  was_pending = h;
  ended = inl refl;
  id = refl;
  batch = refl;
  employee = refl;
  amount = refl;
  currency = refl;
}

failed_item-Ended :
    (e : Exception) (i : PayrollItem) → is_pending_item i.status ≡ true → Ended i (failed_item e i)
unfolding failed_item
failed_item-Ended e i h = record {
  was_pending = h;
  ended = inr refl;
  id = refl;
  batch = refl;
  employee = refl;
  amount = refl;
  currency = refl;
}

module _ (S : PayrollStore) where
  open S use {items as I, batches as B}

  abbrev pub AllSettled : I.Rows → I.Rows → Type 0
  AllSettled t t' = (k : ℕ) → SettledRow (I.find k t) (I.find k t')

  AllSettled-refl : (t : I.Rows) → AllSettled t t
  AllSettled-refl t k = SettledRow-refl (I.find k t)

  save-AllSettled :
      (id : ℕ) (i i' : PayrollItem) (t : I.Rows)
      → I.find id t ≡ some i
      → Ended i i'
      → AllSettled t (I.save i' t)
  save-AllSettled id i i' t f e k = elim (Bool-cases (i'.id == k)) [
    | inl same ↦
        let here : id ≡ k = sym (I.find-key id t f) ∙ sym e.id ∙ ==→eq i'.id k same in
        rw (I.find-save k i' t, same, ← here, f) (inr e)
    | inr other ↦ rw (I.find-save k i' t, other) (SettledRow-refl (I.find k t))
  ]

  -- The body of a payout leaves the items, or saves the row as paid.
  pay_item-items :
      (now : ℕ) (dto : ProcessPayrollBatchDto) (batch clearing id : ℕ) (db : PayrollDb S)
      → AllSettled db.items (pay_item S now dto batch clearing id db).1.items
  unfolding pay_item pay_row enqueue_payroll_event
  pay_item-items now dto batch clearing id db = elim (Option-cases (I.find id db.items)) [
    | inl f ↦ subst (AllSettled db.items) (ground (arith, f)) (AllSettled-refl db.items)
    | inr (row, f) ↦ elim (Bool-cases (is_pending_item row.status)) [
      | inr p ↦ subst (AllSettled db.items) (ground (arith, f, p)) (AllSettled-refl db.items)
      | inl p ↦ elim (Option-cases (B.find batch db.batches)) [
        | inl b ↦ subst (AllSettled db.items) (ground (arith, f, p, b)) (AllSettled-refl db.items)
        | inr (header, b) ↦
            let post = payout_dto (S.uuid_text row.id) header row clearing in
            let done =
              post_with_shared_manager S.ledger now post (trim post.correlation_id) db.ledger in
            elim (Result-cases done.0) [
              | inr (e, x) ↦
                  subst (AllSettled db.items) (ground (arith, f, p, b, x))
                    (AllSettled-refl db.items)
              | inl (posted, x) ↦ subst (AllSettled db.items) (ground (arith, f, p, b, x)) (
                  save-AllSettled id row (paid_item posted.header.id row) db.items f
                    (paid_item-Ended posted.header.id row p))
            ]
      ]
    ]
  ]

  mark-items :
      (id : ℕ) (e : Exception) (db : PayrollDb S)
      → AllSettled db.items (mark_item_payout_failed S id e db).items
  unfolding mark_item_payout_failed
  mark-items id e db = elim (Option-cases (I.find id db.items)) [
    | inl f ↦ subst (AllSettled db.items) (ground (arith, f)) (AllSettled-refl db.items)
    | inr (row, f) ↦ elim (Bool-cases (is_pending_item row.status)) [
      | inr p ↦ subst (AllSettled db.items) (ground (arith, f, p)) (AllSettled-refl db.items)
      | inl p ↦
          subst (AllSettled db.items) (ground (arith, f, p))
            (save-AllSettled id row (failed_item e row) db.items f (failed_item-Ended e row p))
    ]
  ]

  pub payout_round-items :
      (now : ℕ) (dto : ProcessPayrollBatchDto) (batch clearing : ℕ) (i : PayrollItem)
      (db : PayrollDb S)
      → AllSettled db.items (payout_round S now dto batch clearing i db).items
  unfolding payout_round
  payout_round-items now dto batch clearing i db = elim (Bool-cases (is_pending_item i.status)) [
    | inr p ↦ subst (AllSettled db.items) (ground (arith, p)) (AllSettled-refl db.items)
    | inl p ↦
        let body = pay_item S now dto batch clearing i.id db in
        elim (Result-cases body.0) [
          | inl (u, x) ↦
              subst (AllSettled db.items) (ground (arith, p, x))
                (pay_item-items now dto batch clearing i.id db)
          | inr (e, x) ↦ subst (AllSettled db.items) (ground (arith, p, x)) (mark-items i.id e db)
        ]
  ]

  pub payout_rounds-items :
      (now : ℕ) (dto : ProcessPayrollBatchDto) (batch clearing : ℕ) (is : List PayrollItem)
      (db : PayrollDb S)
      → AllSettled db.items (payout_rounds S now dto batch clearing is db).items
  unfolding payout_rounds
  payout_rounds-items now dto batch clearing [] db k = SettledRow-refl (I.find k db.items)
  payout_rounds-items now dto batch clearing (i ∷ is) db k =
      let db₁ = payout_round S now dto batch clearing i db in
      SettledRow-trans (I.find k db.items) (I.find k db₁.items)
        (I.find k (payout_rounds S now dto batch clearing is db₁).items)
        (payout_round-items now dto batch clearing i db k)
        (payout_rounds-items now dto batch clearing is db₁ k)

  -- The payouts change an item only if it was pending, then complete it or fail it, and keep its
  -- batch, employee, amount and currency; a completed or failed item stays as it is.
  pub payouts-AllSettled :
      (now : ℕ) (dto : ProcessPayrollBatchDto) (batch : PayrollBatch) (is : List PayrollItem)
      (db : PayrollDb S)
      → AllSettled db.items (execute_payroll_item_payouts S now dto batch is db).1.items
  unfolding execute_payroll_item_payouts
  payouts-AllSettled now dto batch is db =
      elim (Result-cases (clearing_account_id S batch.currency)) [
        | inr (e, c) ↦ subst (AllSettled db.items) (ground (arith, c)) (AllSettled-refl db.items)
        | inl (clearing, c) ↦
            subst (AllSettled db.items) (ground (arith, c))
              (payout_rounds-items now dto batch.id clearing is db)
      ]
