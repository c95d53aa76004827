-- ===== src/Payments/Slot.antt =====
-- `resolveIdempotencySlot` of payment-orchestrator.service.ts: one record and one payment for each
-- idempotency key and scope.
use fintech_nova_pay.Common.{ℕ, Bool, false, not, Option, none, some, [], ◌∷◌, if◌then◌else◌}
use fintech_nova_pay.Common.Result.{ok, err, conflict, query_failed}
use fintech_nova_pay.Common.Action.{Action}
use fintech_nova_pay.Common.Text.{Text, same_text}
use fintech_nova_pay.Accounts.Entity.{currency_name}
use fintech_nova_pay.Outbox.Entity.{NewOutboxEventRow, payment_created, Value}
use fintech_nova_pay.Outbox.Enqueue.{enqueue_in_transaction}
use fintech_nova_pay.Ledger.Store.{stored, duplicate, broken}
use fintech_nova_pay.Payments.Entity.{
  Payment, PaymentStatus, IdempotencyRecord, IdempotencyRecordStatus, CreatePaymentDto, is_terminal,
  payment_type_name,
}
use fintech_nova_pay.Payments.Store.{
  PaymentStore, PaymentDb, NewRecord, record_with_id, NewPayment, payment_with_id,
}

-- `a ?? b`
abbrev pub or_else {ℓ} : {A : Type ℓ} → Option A → Option A → Option A
or_else none b = b
or_else (some a) b = some a

-- `record.requestFingerprint != null && record.requestFingerprint !== fingerprint`
abbrev pub differs : Option Text → Text → Bool
differs none f = false
differs (some g) f = not (same_text g f)

unfoldable pub new_payment_from_dto : ℕ → CreatePaymentDto → NewPayment
new_payment_from_dto record_id dto = record {
  type = dto.type;
  status = PaymentStatus.pending;
  reference = dto.reference;
  idempotency_record_id = record_id;
  source_account_id = dto.source_account_id;
  destination_account_id = dto.destination_account_id;
  amount = dto.amount;
  currency = dto.currency;
  ledger_transaction_id = none;
  correlation_id = dto.correlation_id;
  memo = dto.memo;
}

abbrev pub new_record : CreatePaymentDto → Text → Text → NewRecord
new_record dto scope_key fingerprint = record {
  idempotency_key = dto.idempotency_key;
  scope_key = scope_key;
  status = IdempotencyRecordStatus.pending;
  request_fingerprint = some fingerprint;
  linked_payment_id = none;
  business_reference = none;
}

abbrev pub created_event : ℕ → CreatePaymentDto → IdempotencyRecord → Payment → NewOutboxEventRow
created_event now dto r p = record {
  routing_key = payment_created;
  payload =
      ("paymentId", Value.id p.id)
      ∷ ("idempotencyRecordId", Value.id r.id)
      ∷ ("reference", Value.text p.reference)
      ∷ ("amount", Value.text p.amount)
      ∷ ("currency", Value.word (currency_name p.currency))
      ∷ ("type", Value.word (payment_type_name p.type))
      ∷ ("sourceAccountId", Value.id p.source_account_id)
      ∷ ("destinationAccountId", Value.id p.destination_account_id)
      ∷ [];
  correlation_id = or_else p.correlation_id dto.correlation_id;
  occurred_at = now;
}

module _ (S : PaymentStore) where
  open S use {ledger as L, records as R, payments as P}

  -- The record of the slot, found or inserted.
  unfoldable pub find_or_insert_record :
      CreatePaymentDto → Text → Text → Action (PaymentDb S) IdempotencyRecord
  find_or_insert_record dto scope_key fingerprint db =
      elim (R.find_by_key dto.idempotency_key scope_key db.records) [
        | some r ↦ (ok r, db)
        | none ↦ elim (R.insert (new_record dto scope_key fingerprint) db.records) [
          | stored i t ↦ (
            ok (record_with_id i (new_record dto scope_key fingerprint)),
            record db { records = t },
          )
          | duplicate t ↦ elim (R.find_by_key dto.idempotency_key scope_key t) [
            | none ↦ (err query_failed, record db { records = t })
            | some r ↦ (ok r, record db { records = t })
          ]
          | broken ↦ (err query_failed, db)
        ]
      ]

  -- The new payment is linked from its record and announced.
  unfoldable pub announce :
      ℕ
      → CreatePaymentDto
      → IdempotencyRecord
      → Payment
      → Action (PaymentDb S) (IdempotencyRecord × Payment)
  announce now dto r p db =
      let linked : IdempotencyRecord = record r {
        linked_payment_id = some p.id;
        business_reference = some dto.reference;
      } in
      (
        ok (linked, p),
        record db {
          records = R.save linked db.records;
          ledger = record (db.ledger) {
            outbox =
                enqueue_in_transaction (L.events) now (created_event now dto linked p)
                  (db.ledger.outbox);
          };
        },
      )

  unfoldable pub find_or_insert_payment :
      ℕ → CreatePaymentDto → IdempotencyRecord → Action (PaymentDb S) (IdempotencyRecord × Payment)
  find_or_insert_payment now dto r db = elim (P.find_by_record r.id db.payments) [
    | some p ↦ (ok (r, p), db)
    | none ↦ elim (P.insert (new_payment_from_dto r.id dto) db.payments) [
      | stored i t ↦
          announce now dto r (payment_with_id i (new_payment_from_dto r.id dto))
            (record db { payments = t })
      | duplicate t ↦ elim (P.find_by_record r.id t) [
        | none ↦ (err query_failed, record db { payments = t })
        | some p ↦ (ok (r, p), record db { payments = t })
      ]
      | broken ↦ (err query_failed, db)
    ]
  ]

  -- A record without a fingerprint gets this one, unless its payment has ended.
  unfoldable pub settle_fingerprint :
      Text → IdempotencyRecord → Payment → Action (PaymentDb S) (IdempotencyRecord × Payment)
  settle_fingerprint fingerprint r p db =
      if is_terminal p.status then (ok (r, p), db) else elim r.request_fingerprint [
        | some f ↦ (ok (r, p), db)
        | none ↦
            let marked : IdempotencyRecord = record r { request_fingerprint = some fingerprint } in
            (ok (marked, p), record db { records = R.save marked db.records })
      ]

  unfoldable pub with_record :
      ℕ
      → CreatePaymentDto
      → Text
      → IdempotencyRecord
      → Action (PaymentDb S) (IdempotencyRecord × Payment)
  with_record now dto fingerprint r db =
      if differs r.request_fingerprint fingerprint
      then (err (conflict "Idempotency key already used with a different request body"), db)
      else let (x, db₁) = find_or_insert_payment now dto r db in
        elim x [ err e ↦ (err e, db₁) | ok (r₁, p) ↦ settle_fingerprint fingerprint r₁ p db₁ ]

  unfoldable pub resolve_idempotency_slot :
      ℕ → CreatePaymentDto → Text → Text → Action (PaymentDb S) (IdempotencyRecord × Payment)
  resolve_idempotency_slot now dto scope_key fingerprint db =
      let (x, db₁) = find_or_insert_record dto scope_key fingerprint db in
      elim x [ err e ↦ (err e, db₁) | ok r ↦ with_record now dto fingerprint r db₁ ]
