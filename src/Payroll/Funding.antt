-- ===== src/Payroll/Funding.antt =====
-- `reserveEmployerFunds` and `processPayrollBatch` of payroll-orchestrator.service.ts. The advisory
-- lock on the employer orders transactions and changes nothing else.
use fintech_nova_pay.Common.{
  ℕ, Bool, true, false, not, ◌&&◌, Option, none, some, List, [], ◌∷◌, ◌++◌, take, if◌then◌else◌,
}
use fintech_nova_pay.Common.Result.{Result, ok, err, bad_request, not_found, query_failed}
use fintech_nova_pay.Common.Action.{Action, transaction}
use fintech_nova_pay.Common.Dict.{is_some}
use fintech_nova_pay.Common.Text.{Text, trim}
use fintech_nova_pay.Accounts.Entity.{currency_name}
use fintech_nova_pay.Outbox.Entity.{payroll_batch_funded, Payload, Value}
use fintech_nova_pay.Ledger.Entity.{debit, credit, transfer, PostLedgerTransactionDto}
use fintech_nova_pay.Ledger.Posting.{post_with_shared_manager}
use fintech_nova_pay.Ledger.Store.{stored, duplicate, broken}
use fintech_nova_pay.Fraud.Entity.{text_of}
use fintech_nova_pay.Payroll.Entity.{
  PayrollBatch, PayrollBatchStatus, draft, funding_reserved, disbursing, completed, failed,
  cancelled, PayrollItem, PayrollFundingReservation, ReservationStatus, ProcessPayrollBatchDto,
  is_draft, is_posted_reservation,
}
use fintech_nova_pay.Payroll.Validation.{
  assert_batch_ready_for_processing, assert_disbursing_resume,
}
use fintech_nova_pay.Payroll.Store.{PayrollStore, PayrollDb, correlation_of, enqueue_payroll_event}
use fintech_nova_pay.Payroll.Payouts.{
  entry, text_value, clearing_account_id, execute_payroll_item_payouts,
}
use fintech_nova_pay.Payroll.Finish.{
  with_status, mark_batch_funding_failed, finalize_payroll_batch_after_disbursement,
}

abbrev text_or_reference : Option Text → PayrollBatch → Text
text_or_reference none batch = text_of "Payroll fund " ++ batch.reference
text_or_reference (some memo) batch = memo

-- From the employer to the clearing account.
unfoldable pub funding_dto :
    Text → ProcessPayrollBatchDto → PayrollBatch → ℕ → PostLedgerTransactionDto
funding_dto batch_text dto locked clearing = record {
  type = transfer;
  reverses_transaction_id = none;
  correlation_id = text_of "pr:f:" ++ batch_text;
  memo = some (take 512 (text_or_reference dto.memo locked));
  entries =
      entry locked.employer_account_id debit locked.total_amount locked.currency
      ∷ entry clearing credit locked.total_amount locked.currency
      ∷ [];
}

abbrev pub reservation_of : PayrollBatch → ℕ → ℕ → PayrollFundingReservation
reservation_of batch tx id = record {
  id = id;
  batch_id = batch.id;
  reserved_amount = batch.total_amount;
  currency = batch.currency;
  ledger_transaction_id = some tx;
  reservation_status = ReservationStatus.posted;
}

abbrev batch_funded_payload : ℕ → PayrollBatch → PayrollFundingReservation → ℕ → Payload
batch_funded_payload now batch reservation tx =
    ("eventName", Value.word "payroll.batch.funded")
    ∷ ("batchId", Value.id batch.id)
    ∷ ("employerAccountId", Value.id batch.employer_account_id)
    ∷ ("reference", Value.text batch.reference)
    ∷ ("correlationId", text_value batch.correlation_id)
    ∷ ("fundingReservationId", Value.id reservation.id)
    ∷ ("ledgerTransactionId", Value.id tx)
    ∷ ("reservedAmount", Value.text reservation.reserved_amount)
    ∷ ("currency", Value.word (currency_name reservation.currency))
    ∷ ("occurredAt", Value.time now)
    ∷ []

abbrev pub already_posted : Option PayrollFundingReservation → Bool
already_posted none = false
already_posted (some r) =
    is_posted_reservation r.reservation_status && is_some r.ledger_transaction_id

abbrev pub is_posted_row : Option PayrollFundingReservation → Bool
is_posted_row none = false
is_posted_row (some r) = is_posted_reservation r.reservation_status

abbrev status_of_row : Option PayrollFundingReservation → Option ReservationStatus
status_of_row none = none
status_of_row (some r) = some r.reservation_status

module _ (S : PayrollStore) where
  open S use {batches as B, reservations as R}

  -- `update({ id }, { status })`
  unfoldable pub update_batch_status : ℕ → PayrollBatchStatus → PayrollDb S → PayrollDb S
  update_batch_status id s db = elim (B.find id db.batches) [
    | none ↦ db
    | some b ↦ record db { batches = B.save (with_status s b) db.batches }
  ]

  -- The reservation as posted: the row that was there, or a new one.
  unfoldable pub save_reservation :
      PayrollBatch
      → ℕ
      → Option PayrollFundingReservation
      → Action (PayrollDb S) PayrollFundingReservation
  save_reservation locked tx (some r) db =
      let saved = reservation_of locked tx r.id in
      (ok saved, record db { reservations = R.save saved db.reservations })
  save_reservation locked tx none db =
      elim (S.insert_reservation (reservation_of locked tx) db.reservations) [
        | broken ↦ (err query_failed, db)
        | duplicate t ↦ (err query_failed, db)
        | stored i t ↦ (ok (reservation_of locked tx i), record db { reservations = t })
      ]

  unfoldable pub post_funding :
      ℕ
      → ProcessPayrollBatchDto
      → PayrollBatch
      → Option PayrollFundingReservation
      → ℕ
      → Action (PayrollDb S) (Unit {0})
  post_funding now dto locked reservation clearing db =
      let post = funding_dto (S.uuid_text locked.id) dto locked clearing in
      let (x, ledger) =
        post_with_shared_manager S.ledger now post (trim post.correlation_id) db.ledger in
      let db₁ : PayrollDb S = record db { ledger = ledger } in
      elim x [
        | err e ↦ (err e, db₁)
        | ok posted ↦
            let (saving, db₂) = save_reservation locked posted.header.id reservation db₁ in
            elim saving [
              | err e ↦ (err e, db₂)
              | ok saved ↦ (
                ok tt,
                enqueue_payroll_event S now payroll_batch_funded (correlation_of dto locked)
                    (batch_funded_payload now locked saved posted.header.id)
                    (update_batch_status locked.id funding_reserved db₂),
              )
            ]
      ]

  unfoldable pub reserve_in_transaction :
      ℕ → ProcessPayrollBatchDto → ℕ → ℕ → Action (PayrollDb S) (Unit {0})
  reserve_in_transaction now dto batch_id clearing db = elim (B.find batch_id db.batches) [
    | none ↦ (err (not_found "Payroll batch not found"), db)
    | some locked ↦
        let reservation = S.find_reservation batch_id db.reservations in
        if not (is_draft locked.status)
        then (ok tt, db)
        else if already_posted reservation
        then (ok tt, update_batch_status batch_id funding_reserved db)
        else post_funding now dto locked reservation clearing db
  ]

  unfoldable pub reserve_employer_funds :
      ℕ → ProcessPayrollBatchDto → PayrollBatch → Action (PayrollDb S) (Unit {0})
  reserve_employer_funds now dto batch db = elim (clearing_account_id S batch.currency) [
    | err e ↦ (err e, db)
    | ok clearing ↦ transaction (reserve_in_transaction now dto batch.id clearing) db
  ]

  unfoldable pub fund_draft :
      ℕ → ProcessPayrollBatchDto → PayrollBatch → List PayrollItem → Action (PayrollDb S) (Unit {0})
  fund_draft now dto batch items db = elim (assert_batch_ready_for_processing batch items) [
    | err e ↦ (err e, db)
    | ok u ↦
        let (x, db₁) = reserve_employer_funds now dto batch db in
        elim x [
          | err e ↦ (err e, mark_batch_funding_failed S now batch.id dto e db₁)
          | ok v ↦ (ok tt, update_batch_status batch.id disbursing db₁)
        ]
  ]

  -- What the status of the batch asks for before the payouts.
  unfoldable pub prepare :
      ℕ
      → ProcessPayrollBatchDto
      → PayrollBatch
      → PayrollBatchStatus
      → Action (PayrollDb S) (Unit {0})
  prepare now dto batch draft db = fund_draft now dto batch (S.find_by_batch batch.id db.items) db
  prepare now dto batch funding_reserved db =
      if not (is_posted_row (S.find_reservation batch.id db.reservations))
      then (err (bad_request "Batch is FUNDING_RESERVED without a posted reservation"), db)
      else (ok tt, update_batch_status batch.id disbursing db)
  prepare now dto batch disbursing db = (
    assert_disbursing_resume (status_of_row (S.find_reservation batch.id db.reservations))
        (S.find_by_batch batch.id db.items),
    db,
  )
  prepare now dto batch completed db = (ok tt, db)
  prepare now dto batch failed db =
      (err (bad_request "Payroll batch cannot be processed in its status"), db)
  prepare now dto batch cancelled db =
      (err (bad_request "Payroll batch cannot be processed in its status"), db)

  unfoldable pub require_batch : ℕ → PayrollDb S → Result PayrollBatch
  require_batch id db = elim (B.find id db.batches) [
    | none ↦ err (not_found "Payroll batch not found")
    | some b ↦ ok b
  ]

  unfoldable pub disburse :
      ℕ → ProcessPayrollBatchDto → PayrollBatch → Action (PayrollDb S) PayrollBatch
  disburse now dto batch db =
      let (x, db₁) =
        execute_payroll_item_payouts S now dto batch (S.find_by_batch batch.id db.items) db in
      elim x [
        | err e ↦ (err e, db₁)
        | ok u ↦
            let db₂ = finalize_payroll_batch_after_disbursement S now batch.id dto db₁ in
            (require_batch batch.id db₂, db₂)
      ]

  unfoldable pub disburse_funded :
      ℕ → ProcessPayrollBatchDto → ℕ → Action (PayrollDb S) PayrollBatch
  disburse_funded now dto batch_id db =
      if not (is_posted_row (S.find_reservation batch_id db.reservations))
      then (err (bad_request "Payroll batch is missing posted employer funding"), db)
      else elim (require_batch batch_id db) [
        | err e ↦ (err e, db)
        | ok batch ↦ disburse now dto batch db
      ]

  abbrev pub is_completed_batch : PayrollBatchStatus → Bool
  is_completed_batch completed = true
  is_completed_batch _ = false

  unfoldable pub process_payroll_batch :
      ℕ → ℕ → ProcessPayrollBatchDto → Action (PayrollDb S) PayrollBatch
  process_payroll_batch now batch_id dto db = elim (require_batch batch_id db) [
    | err e ↦ (err e, db)
    | ok initial ↦
        if is_completed_batch initial.status
        then (ok initial, db)
        else let (x, db₁) = prepare now dto initial initial.status db in
          elim x [ err e ↦ (err e, db₁) | ok u ↦ disburse_funded now dto batch_id db₁ ]
  ]
