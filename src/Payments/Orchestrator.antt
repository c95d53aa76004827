-- ===== src/Payments/Orchestrator.antt =====
-- `submitPaymentWithSharedManager` of payment-orchestrator.service.ts.
use fintech_nova_pay.Common.{ℕ, ◌==◌, not, none, some, List, [], ◌∷◌, ◌++◌, if◌then◌else◌}
use fintech_nova_pay.Common.Result.{
  Result, ok, err, message, not_found, forbidden, throw_if, ◌>>=◌, ◌>>◌, or_throw,
}
use fintech_nova_pay.Common.Action.{Action, transaction}
use fintech_nova_pay.Common.Dict.{Dict, lookup, sort}
use fintech_nova_pay.Common.Text.{trim, is_empty}
use fintech_nova_pay.Accounts.Entity.{Account}
use fintech_nova_pay.Outbox.Entity.{
  OutboxRoutingKey, payment_completed, payment_failed, Payload, Value,
}
use fintech_nova_pay.Outbox.Enqueue.{enqueue_in_transaction}
use fintech_nova_pay.Ledger.Posting.{post_with_shared_manager}
use fintech_nova_pay.Payments.Entity.{
  Payment, PaymentStatus, PaymentType, IdempotencyRecord, IdempotencyRecordStatus, CreatePaymentDto,
  is_collection, is_terminal,
}
use fintech_nova_pay.Payments.Store.{PaymentStore, PaymentDb}
use fintech_nova_pay.Fraud.Entity.{FraudEvaluationContext, RiskDecision}
use fintech_nova_pay.Payments.Slot.{or_else, resolve_idempotency_slot}
use fintech_nova_pay.Payments.Requests.{
  body, text_or, build_ledger_post_dto, is_fraud_approved_for_payment, assert_accounts_ready,
  payment_payload, fraud_payload,
}

module _ (S : PaymentStore) where
  open S use {ledger as L, records as R, payments as P}

  -- The account that the actor must own: the destination of a collection, else the source.
  unfoldable pub assert_owned_by_actor : PaymentType → Payment → ℕ → PaymentDb S → Result (Unit {0})
  assert_owned_by_actor type p actor db =
      if is_collection type
      then (or_throw (L.accounts.find p.destination_account_id db.ledger.accounts)
            (not_found "Destination account not found")
          >>= λ row.
              throw_if (not (row.user_id == actor))
                (forbidden "Destination account does not belong to caller"))
      else (or_throw (L.accounts.find p.source_account_id db.ledger.accounts)
            (not_found "Source account not found")
          >>= λ row.
              throw_if (not (row.user_id == actor))
                (forbidden "Source account does not belong to caller"))

  -- The rows of the locked accounts, by identifier.
  unfoldable pub load_rows : CreatePaymentDto → List ℕ → PaymentDb S → Result (Dict Account)
  load_rows dto [] db = ok []
  load_rows dto (id ∷ ids) db =
      or_throw (L.accounts.find id db.ledger.accounts) (
        not_found (
          if id == dto.source_account_id
          then "Source account not found"
          else "Destination account not found"))
      >>= λ row. load_rows dto ids db >>= λ rest. ok ((row.id, row) ∷ rest)

  abbrev unique_sorted : CreatePaymentDto → List ℕ
  unique_sorted dto =
      if dto.source_account_id == dto.destination_account_id
      then dto.source_account_id ∷ []
      else sort (dto.source_account_id ∷ dto.destination_account_id ∷ [])

  unfoldable pub load_payment_accounts_locked :
      CreatePaymentDto → PaymentDb S → Result (Account × Account)
  load_payment_accounts_locked dto db = do
    by_id ← load_rows dto (unique_sorted dto) db
    source ←
        or_throw (lookup dto.source_account_id by_id)
          (not_found "Source or destination account not found")
    dest ←
        or_throw (lookup dto.destination_account_id by_id)
          (not_found "Source or destination account not found")
    ok (source, dest)

  unfoldable pub assert_caller : CreatePaymentDto → Account → Account → ℕ → Result (Unit {0})
  assert_caller dto source dest actor =
      if is_collection dto.type
      then throw_if (not (dest.user_id == actor))
          (forbidden "Destination account does not belong to caller")
      else throw_if (not (source.user_id == actor))
          (forbidden "Source account does not belong to caller")

  unfoldable pub build_fraud_evaluation_context :
      ℕ → CreatePaymentDto → Payment → Account → Account → FraudEvaluationContext
  build_fraud_evaluation_context now dto p source dest =
      let raw = trim (text_or p.reference (or_else p.correlation_id dto.correlation_id)) in
      record {
        user_id = if is_collection dto.type then dest.user_id else source.user_id;
        source_account_id = source.id;
        destination_account_id = dest.id;
        recipient_account_id = dest.id;
        sender_account_id = source.id;
        amount = p.amount;
        currency = p.currency;
        payment_reference = p.reference;
        correlation_id = if is_empty raw then S.uuid_text p.id else raw;
        device_id = none;
        device_fingerprint = none;
        transaction_timestamp = now;
      }

  -- Ownership, the locked rows, their readiness, and the fraud decision: what stands before
  -- `PROCESSING`. It writes nothing in this transaction.
  unfoldable pub gate : ℕ → CreatePaymentDto → ℕ → Payment → PaymentDb S → Result RiskDecision
  gate now dto actor p db = do
    (source, dest) ← load_payment_accounts_locked dto db
    assert_caller dto source dest actor
    assert_accounts_ready source dest dto
    S.evaluate (build_fraud_evaluation_context now dto p source dest)

  -- The payment, its record and one event, written together at the end of the path.
  unfoldable pub finish :
      ℕ
      → CreatePaymentDto
      → OutboxRoutingKey
      → Payload
      → IdempotencyRecord
      → Payment
      → Action (PaymentDb S) Payment
  finish now dto key payload r p db = (
    ok p,
    record db {
      records = R.save r db.records;
      payments = P.save p db.payments;
      ledger = record (db.ledger) {
        outbox =
            enqueue_in_transaction (L.events) now
              (record {
                routing_key = key;
                payload = payload;
                correlation_id = or_else p.correlation_id dto.correlation_id;
                occurred_at = now;
              })
              (db.ledger.outbox);
      };
    },
  )

  unfoldable pub fail_payment :
      ℕ → CreatePaymentDto → Payload → IdempotencyRecord → Payment → Action (PaymentDb S) Payment
  unfolding finish
  fail_payment now dto extra r p =
      finish now dto payment_failed (payment_payload p ++ extra)
        (record r { status = IdempotencyRecordStatus.failed })
        (record p { status = PaymentStatus.failed })

  unfoldable pub complete_payment :
      ℕ → CreatePaymentDto → ℕ → IdempotencyRecord → Payment → Action (PaymentDb S) Payment
  unfolding finish
  complete_payment now dto tx r p =
      finish now dto payment_completed
        (payment_payload p ++ ("ledgerTransactionId", Value.id tx) ∷ [])
        (record r { status = IdempotencyRecordStatus.completed })
        (record p { status = PaymentStatus.completed; ledger_transaction_id = some tx })

  -- `PROCESSING`, the ledger post, and the end that it leads to. A post that throws is caught.
  unfoldable pub process :
      ℕ → CreatePaymentDto → IdempotencyRecord → Payment → Action (PaymentDb S) Payment
  process now dto r p db =
      let p₁ : Payment = record p { status = PaymentStatus.processing } in
      let saved = P.save p₁ db.payments in
      let post = build_ledger_post_dto S.uuid_text dto p.id in
      let (x, ledger) = post_with_shared_manager L now post (trim post.correlation_id) db.ledger in
      let db₁ : PaymentDb S = record db { payments = saved; ledger = ledger } in
      elim x [
        | ok posted ↦ complete_payment now dto posted.header.id r p₁ db₁
        | err e ↦ fail_payment now dto (("reason", Value.word (message e)) ∷ []) r p₁ db₁
      ]

  unfoldable pub submit_to_fraud :
      ℕ → CreatePaymentDto → ℕ → IdempotencyRecord → Payment → Action (PaymentDb S) Payment
  submit_to_fraud now dto actor r p db = elim (gate now dto actor p db) [
    | err e ↦ (err e, db)
    | ok decision ↦
        if is_fraud_approved_for_payment decision.final_decision
        then process now dto r p db
        else fail_payment now dto (fraud_payload decision) r p db
  ]

  -- The path from the slot: ownership, then the stored outcome if the payment has ended.
  unfoldable pub submit_resolved :
      ℕ → CreatePaymentDto → ℕ → IdempotencyRecord → Payment → Action (PaymentDb S) Payment
  submit_resolved now dto actor r p db = elim (assert_owned_by_actor dto.type p actor db) [
    | err e ↦ (err e, db)
    | ok u ↦ if is_terminal p.status then (ok p, db) else submit_to_fraud now dto actor r p db
  ]

  unfoldable pub submit_payment_with_shared_manager :
      ℕ → CreatePaymentDto → ℕ → Action (PaymentDb S) Payment
  submit_payment_with_shared_manager now dto actor db =
      let (x, db₁) =
        resolve_idempotency_slot S now dto (text_or [] dto.idempotency_scope_key)
          (S.hash (body dto)) db in
      elim x [ err e ↦ (err e, db₁) | ok (r, p) ↦ submit_resolved now dto actor r p db₁ ]

  unfoldable pub submit_payment : ℕ → CreatePaymentDto → ℕ → Action (PaymentDb S) Payment
  submit_payment now dto actor = transaction (submit_payment_with_shared_manager now dto actor)
