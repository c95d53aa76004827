-- ===== src/Payroll/Completion.antt =====
-- The status that the finalization stores, against the items.
use fintech_nova_pay.Common.{
  ℕ, ◌≡◌, refl, ◌==◌, ==-self, inl, inr, true, false, some, List, [], ◌∷◌, all, Bool-cases, arith,
}
use fintech_nova_pay.Payroll.Entity.{
  PayrollBatch, PayrollBatchStatus, completed, failed, PayrollItem, PayrollItemStatus,
  ProcessPayrollBatchDto, is_disbursing, is_pending_item, is_completed_item, is_failed_item,
}
use fintech_nova_pay.Payroll.Store.{PayrollStore, PayrollDb, enqueue_payroll_event}
use fintech_nova_pay.Payroll.Finish.{
  some_item, pending_line, failed_line, completed_line, terminal_line, with_status, fail_batch,
  complete_batch, finalize_locked, finalize_payroll_batch_after_disbursement,
}

completed-not_pending :
    (s : PayrollItemStatus) → is_completed_item s ≡ true → is_pending_item s ≡ false
completed-not_pending PayrollItemStatus.pending h = absurd (ground (arith, h))
completed-not_pending PayrollItemStatus.processing h = refl
completed-not_pending PayrollItemStatus.completed h = refl
completed-not_pending PayrollItemStatus.failed h = refl
completed-not_pending PayrollItemStatus.skipped h = refl

completed-not_failed :
    (s : PayrollItemStatus) → is_completed_item s ≡ true → is_failed_item s ≡ false
completed-not_failed PayrollItemStatus.pending h = refl
completed-not_failed PayrollItemStatus.processing h = refl
completed-not_failed PayrollItemStatus.completed h = refl
completed-not_failed PayrollItemStatus.failed h = absurd (ground (arith, h))
completed-not_failed PayrollItemStatus.skipped h = refl

-- The three tests of the code come to one.
all_completed :
    (is : List PayrollItem)
    → all completed_line is ≡ true
    → (some_item pending_line is ≡ false)
      × (all terminal_line is ≡ true)
      × (some_item failed_line is ≡ false)
unfolding some_item
all_completed [] h = (refl, refl, refl)
all_completed (i ∷ is) h =
    let here : is_completed_item i.status ≡ true = ground (arith, h) in
    let (a, b, c) = all_completed is (ground (arith, h)) in
    let p = completed-not_pending i.status here in
    let q = completed-not_failed i.status here in
    (ground (arith, p, a), ground (arith, here, b), ground (arith, q, c))

all_passed :
    (is : List PayrollItem)
    → all terminal_line is ≡ true
    → some_item failed_line is ≡ false
    → all completed_line is ≡ true
unfolding some_item
all_passed [] t f = refl
all_passed (i ∷ is) t f =
    let rest = all_passed is (ground (arith, t)) (ground (arith, f)) in ground (arith, t, f, rest)

module _ (S : PayrollStore) where
  open S use {items as I, batches as B}

  saved :
      (id : ℕ) (s : PayrollBatchStatus) (b : PayrollBatch) (t : B.Rows)
      → B.find id t ≡ some b
      → B.find id (B.save (with_status s b) t) ≡ some (with_status s b)
  unfolding with_status
  saved id s b t f =
      let key = B.find-key id t f in
      let same : (b.id == id) ≡ true = rw key (==-self id) in
      rw (B.find-save id (with_status s b) t, same) refl

  -- A disbursing batch is stored as `COMPLETED` by the finalization if all its items are completed,
  -- and only then.
  pub finalize-completes :
      (now id : ℕ) (dto : ProcessPayrollBatchDto) (db : PayrollDb S) {b b' : PayrollBatch}
      → B.find id db.batches ≡ some b
      → is_disbursing b.status ≡ true
      → B.find id (finalize_payroll_batch_after_disbursement S now id dto db).batches ≡ some b'
      → (all completed_line (S.find_by_batch id db.items) ≡ true → b'.status ≡ completed)
        × (b'.status ≡ completed → all completed_line (S.find_by_batch id db.items) ≡ true)
  unfolding finalize_payroll_batch_after_disbursement finalize_locked fail_batch complete_batch
      enqueue_payroll_event with_status
  finalize-completes now id dto db {b} {b'} f d g =
      let is = S.find_by_batch id db.items in
      let done = saved id completed b db.batches f in
      let lost = saved id failed b db.batches f in
      (
        λ c. let (p, t, q) = all_completed is c in ground (arith, f, d, p, t, q, g, done),
        λ c. elim (Bool-cases (some_item pending_line is)) [
          | inl p ↦ absurd (ground (arith, f, d, p, g, c))
          | inr p ↦ elim (Bool-cases (all terminal_line is)) [
            | inr t ↦ absurd (ground (arith, f, d, p, t, g, c))
            | inl t ↦ elim (Bool-cases (some_item failed_line is)) [
              | inl q ↦ absurd (ground (arith, f, d, p, t, q, g, lost, c))
              | inr q ↦ all_passed is t q
            ]
          ]
        ],
      )
