-- ===== src/Payroll/Finish.antt =====
-- How a batch ends: `markBatchFundingFailed` and `finalizePayrollBatchAfterDisbursement` of
-- modules/payroll/service/payroll.service.ts.
use fintech_nova_pay.Common.{
  ℕ, suc, Bool, false, not, ◌||◌, Option, none, some, List, String, [], ◌∷◌, all, take,
  if◌then◌else◌,
}
use fintech_nova_pay.Common.Result.{Exception, message}
use fintech_nova_pay.Common.Text.{Text}
use fintech_nova_pay.Accounts.Entity.{currency_name}
use fintech_nova_pay.Outbox.Entity.{payroll_batch_failed, payroll_batch_completed, Payload, Value}
use fintech_nova_pay.Fraud.Entity.{text_of}
use fintech_nova_pay.Payroll.Entity.{
  PayrollBatch, PayrollBatchStatus, PayrollItem, ProcessPayrollBatchDto, is_draft, is_disbursing,
  is_pending_item, is_completed_item, is_failed_item,
}
use fintech_nova_pay.Payroll.Store.{PayrollStore, PayrollDb, correlation_of, enqueue_payroll_event}
use fintech_nova_pay.Payroll.Payouts.{text_value}

-- `Array.prototype.some` on the items
unfoldable pub some_item : (PayrollItem → Bool) → List PayrollItem → Bool
some_item p [] = false
some_item p (i ∷ is) = p i || some_item p is

abbrev pub pending_line : PayrollItem → Bool
pending_line i = is_pending_item i.status

abbrev pub failed_line : PayrollItem → Bool
failed_line i = is_failed_item i.status

abbrev pub completed_line : PayrollItem → Bool
completed_line i = is_completed_item i.status

abbrev pub terminal_line : PayrollItem → Bool
terminal_line i = is_completed_item i.status || is_failed_item i.status

unfoldable pub count_completed : List PayrollItem → ℕ
count_completed [] = 0
count_completed (i ∷ is) =
    let rest = count_completed is in if is_completed_item i.status then suc rest else rest

abbrev memo_or_default : Option Text → Text
memo_or_default none = text_of "One or more payroll lines failed"
memo_or_default (some m) = m

-- The memo of the first failed line.
unfoldable pub first_payroll_failure_summary : List PayrollItem → Text
first_payroll_failure_summary [] = memo_or_default none
first_payroll_failure_summary (i ∷ is) =
    let rest = first_payroll_failure_summary is in
    if is_failed_item i.status then memo_or_default i.memo else rest

abbrev or_batch : Option Text → Option Text → Option Text
or_batch none c = c
or_batch (some c) d = some c

abbrev batch_failed_payload : ℕ → ProcessPayrollBatchDto → PayrollBatch → String → Text → Payload
batch_failed_payload now dto batch reason_code text =
    ("eventName", Value.word "payroll.batch.failed")
    ∷ ("batchId", Value.id batch.id)
    ∷ ("employerAccountId", Value.id batch.employer_account_id)
    ∷ ("reference", Value.text batch.reference)
    ∷ ("idempotencyKey", Value.text dto.idempotency_key)
    ∷ ("correlationId", text_value (or_batch dto.correlation_id batch.correlation_id))
    ∷ ("reasonCode", Value.word reason_code)
    ∷ ("message", Value.text text)
    ∷ ("occurredAt", Value.time now)
    ∷ []

abbrev batch_completed_payload : ℕ → ProcessPayrollBatchDto → PayrollBatch → ℕ → Payload
batch_completed_payload now dto batch lines =
    ("eventName", Value.word "payroll.batch.completed")
    ∷ ("batchId", Value.id batch.id)
    ∷ ("employerAccountId", Value.id batch.employer_account_id)
    ∷ ("reference", Value.text batch.reference)
    ∷ ("idempotencyKey", Value.text dto.idempotency_key)
    ∷ ("correlationId", text_value (or_batch dto.correlation_id batch.correlation_id))
    ∷ ("totalAmount", Value.text batch.total_amount)
    ∷ ("currency", Value.word (currency_name batch.currency))
    ∷ ("completedItemCount", Value.number lines)
    ∷ ("occurredAt", Value.time now)
    ∷ []

unfoldable pub with_status : PayrollBatchStatus → PayrollBatch → PayrollBatch
with_status s batch = record batch { status = s }

module _ (S : PayrollStore) where
  open S use {items as I, batches as B}

  -- The new status and the event of a batch that has failed.
  unfoldable pub fail_batch :
      ℕ → ProcessPayrollBatchDto → PayrollBatch → String → Text → PayrollDb S → PayrollDb S
  fail_batch now dto locked reason_code text db =
      enqueue_payroll_event S now payroll_batch_failed (correlation_of dto locked)
        (batch_failed_payload now dto locked reason_code text)
        (record db { batches = B.save (with_status PayrollBatchStatus.failed locked) db.batches })

  unfoldable pub complete_batch :
      ℕ → ProcessPayrollBatchDto → PayrollBatch → ℕ → PayrollDb S → PayrollDb S
  complete_batch now dto locked lines db =
      enqueue_payroll_event S now payroll_batch_completed (correlation_of dto locked)
        (batch_completed_payload now dto locked lines)
        (record db {
          batches = B.save (with_status PayrollBatchStatus.completed locked) db.batches;
        })

  unfoldable pub mark_batch_funding_failed :
      ℕ → ℕ → ProcessPayrollBatchDto → Exception → PayrollDb S → PayrollDb S
  mark_batch_funding_failed now batch_id dto e db = elim (B.find batch_id db.batches) [
    | none ↦ db
    | some locked ↦
        if not (is_draft locked.status)
        then db
        else fail_batch now dto locked "FUNDING_REJECTED" (take 512 (text_of (message e))) db
  ]

  unfoldable pub finalize_locked :
      ℕ → ProcessPayrollBatchDto → PayrollBatch → List PayrollItem → PayrollDb S → PayrollDb S
  finalize_locked now dto locked items db =
      if some_item pending_line items
      then db
      else if not (all terminal_line items)
      then db
      else if some_item failed_line items
      then fail_batch now dto locked "PARTIAL_DISBURSEMENT" (first_payroll_failure_summary items) db
      else complete_batch now dto locked (count_completed items) db

  unfoldable pub finalize_payroll_batch_after_disbursement :
      ℕ → ℕ → ProcessPayrollBatchDto → PayrollDb S → PayrollDb S
  finalize_payroll_batch_after_disbursement now batch_id dto db =
      elim (B.find batch_id db.batches) [
        | none ↦ db
        | some locked ↦
            if not (is_disbursing locked.status)
            then db
            else finalize_locked now dto locked (S.find_by_batch batch_id db.items) db
      ]
