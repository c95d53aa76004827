-- ===== src/Payroll/Create.antt =====
-- `createPayrollBatch` of payroll-orchestrator.service.ts with `persistNewBatchWithItems` of
-- payroll.service.ts.
use fintech_nova_pay.Common.{ℕ, Bool, true, false, none, some, List, [], ◌∷◌, length, map}
use fintech_nova_pay.Common.Result.{ok, err, query_failed}
use fintech_nova_pay.Common.Action.{Action, transaction}
use fintech_nova_pay.Accounts.Entity.{currency_name}
use fintech_nova_pay.Outbox.Entity.{payroll_batch_created, Payload, Value}
use fintech_nova_pay.Outbox.Enqueue.{enqueue_in_transaction}
use fintech_nova_pay.Ledger.Store.{stored, duplicate, broken}
use fintech_nova_pay.Payroll.Entity.{
  PayrollBatch, PayrollBatchStatus, PayrollItem, PayrollItemStatus, CreatePayrollBatchDto,
  CreatePayrollItemDto,
}
use fintech_nova_pay.Payroll.Validation.{assert_create_batch_valid}
use fintech_nova_pay.Payroll.Store.{PayrollStore, PayrollDb}
use fintech_nova_pay.Payroll.Payouts.{text_value}

-- The rows of `persistNewBatchWithItems`, with the identifiers that the database gives.
unfoldable pub new_batch : ℕ → CreatePayrollBatchDto → PayrollBatch
new_batch id dto = record {
  id = id;
  employer_account_id = dto.employer_account_id;
  total_amount = dto.total_amount;
  currency = dto.currency;
  status = PayrollBatchStatus.draft;
  reference = dto.reference;
  idempotency_key = dto.idempotency_key;
  correlation_id = dto.correlation_id;
  external_batch_ref = dto.external_batch_ref;
  memo = dto.memo;
}

unfoldable pub new_item : ℕ → ℕ → CreatePayrollItemDto → PayrollItem
new_item batch id line = record {
  id = id;
  batch_id = batch;
  employee_account_id = line.employee_account_id;
  amount = line.amount;
  currency = line.currency;
  status = PayrollItemStatus.pending;
  item_reference = line.item_reference;
  payment_id = none;
  ledger_transaction_id = none;
  memo = line.memo;
}

unfoldable pub new_items :
    (CreatePayrollItemDto → ℕ) → ℕ → List CreatePayrollItemDto → List PayrollItem
new_items ids batch [] = []
new_items ids batch (l ∷ ls) = new_item batch (ids l) l ∷ new_items ids batch ls

abbrev batch_created_payload : ℕ → PayrollBatch → ℕ → Payload
batch_created_payload now batch lines =
    ("eventName", Value.word "payroll.batch.created")
    ∷ ("batchId", Value.id batch.id)
    ∷ ("employerAccountId", Value.id batch.employer_account_id)
    ∷ ("reference", Value.text batch.reference)
    ∷ ("idempotencyKey", Value.text batch.idempotency_key)
    ∷ ("correlationId", text_value batch.correlation_id)
    ∷ ("externalBatchRef", text_value batch.external_batch_ref)
    ∷ ("totalAmount", Value.text batch.total_amount)
    ∷ ("currency", Value.word (currency_name batch.currency))
    ∷ ("itemCount", Value.number lines)
    ∷ ("occurredAt", Value.time now)
    ∷ []

pub record CreatePayrollBatchResult : Type 0 where
  pub batch : PayrollBatch
  pub items : List PayrollItem
  pub created : Bool

module _ (S : PayrollStore) where
  open S use {items as I, batches as B}

  unfoldable pub insert_rows :
      ℕ → CreatePayrollBatchDto → Action (PayrollDb S) CreatePayrollBatchResult
  insert_rows now dto db = elim (S.insert_batch (λ id. new_batch id dto) db.batches) [
    | broken ↦ (err query_failed, db)
    | duplicate t ↦ (err query_failed, db)
    | stored b t ↦ elim (S.insert_items (map (λ line id. new_item b id line) dto.items) db.items) [
      | err e ↦ (err e, record db { batches = t })
      | ok (items, t') ↦
          let batch = new_batch b dto in
          (
            ok (record { batch = batch; items = items; created = true }),
            record db {
              batches = t;
              items = t';
              ledger = record (db.ledger) {
                outbox =
                    enqueue_in_transaction S.ledger.events now
                      (record {
                        routing_key = payroll_batch_created;
                        payload = batch_created_payload now batch (length items);
                        correlation_id = batch.correlation_id;
                        occurred_at = now;
                      })
                      db.ledger.outbox;
              };
            },
          )
    ]
  ]

  unfoldable pub persist_new_batch_with_items :
      ℕ → CreatePayrollBatchDto → Action (PayrollDb S) CreatePayrollBatchResult
  persist_new_batch_with_items now dto = transaction (insert_rows now dto)

  unfoldable pub create_payroll_batch :
      ℕ → CreatePayrollBatchDto → Action (PayrollDb S) CreatePayrollBatchResult
  create_payroll_batch now dto db =
      elim (S.find_by_employer_and_key dto.employer_account_id dto.idempotency_key db.batches) [
        | some existing ↦ (
          ok (record {
            batch = existing;
            items = S.find_by_batch existing.id db.items;
            created = false;
          }),
          db,
        )
        | none ↦
            elim (assert_create_batch_valid (λ k. S.ledger.accounts.find k db.ledger.accounts)
              dto) [ err e ↦ (err e, db) | ok u ↦ persist_new_batch_with_items now dto db ]
      ]
