-- ===== src/Payments/Gate.antt =====
-- What stands before the ledger on the payment path, the fraud decision, and how the path ends.
use fintech_nova_pay.Common.{ℕ, ◌≡◌, true, false, some, inl, inr, [], Bool-cases, arith}
use fintech_nova_pay.Common.Result.{Result, ok, Result-cases}
use fintech_nova_pay.Payments.Entity.{
  Payment, PaymentStatus, IdempotencyRecord, CreatePaymentDto, is_terminal,
}
use fintech_nova_pay.Payments.Store.{PaymentStore, PaymentDb, reread_payment}
use fintech_nova_pay.Fraud.Entity.{RiskDecision}
use fintech_nova_pay.Payments.Slot.{resolve_idempotency_slot}
use fintech_nova_pay.Payments.Requests.{body, text_or, is_fraud_approved_for_payment}
use fintech_nova_pay.Payments.Orchestrator.{
  assert_owned_by_actor, gate, finish, fail_payment, complete_payment, process, submit_to_fraud,
  submit_resolved, submit_payment_with_shared_manager, submit_payment,
}

module _ (S : PaymentStore) where
  open S use {ledger as L, records as R, payments as P}

  -- When the gate passes with a decision other than `APPROVED`, the path returns the payment as
  -- `FAILED`, stores it so, its amount in the column's spelling, and leaves the accounts, the ledger's headers and its lines as they were.
  pub submit_to_fraud-declined :
      (now : ℕ) (dto : CreatePaymentDto) (actor : ℕ) (r : IdempotencyRecord) (p : Payment)
      (db : PaymentDb S) {decision : RiskDecision} {x : Result Payment} {db' : PaymentDb S}
      → gate S now dto actor p db ≡ ok decision
      → is_fraud_approved_for_payment decision.final_decision ≡ false
      → submit_to_fraud S now dto actor r p db ≡ (x, db')
      → (x ≡ ok (record p { status = PaymentStatus.failed }))
        × (P.find_by_record p.idempotency_record_id db'.payments
            ≡ some (reread_payment P.column (record p { status = PaymentStatus.failed })))
        × (db'.ledger.accounts ≡ db.ledger.accounts)
        × (db'.ledger.transactions ≡ db.ledger.transactions)
        × (db'.ledger.entries ≡ db.ledger.entries)
  unfolding submit_to_fraud fail_payment finish
  submit_to_fraud-declined now dto actor r p db g n h =
      let saved = P.find-save (record p { status = PaymentStatus.failed }) db.payments in
      (
        ground (arith, g, n, h),
        ground (arith, g, n, h, saved),
        ground (arith, g, n, h),
        ground (arith, g, n, h),
        ground (arith, g, n, h),
      )

  process-ended :
      (now : ℕ) (dto : CreatePaymentDto) (r : IdempotencyRecord) (p : Payment) (db : PaymentDb S)
      {q : Payment} {db' : PaymentDb S}
      → process S now dto r p db ≡ (ok q, db')
      → is_terminal q.status ≡ true
  unfolding process complete_payment fail_payment finish
  process-ended now dto r p db h = ground (arith, h)

  submit_to_fraud-ended :
      (now : ℕ) (dto : CreatePaymentDto) (actor : ℕ) (r : IdempotencyRecord) (p : Payment)
      (db : PaymentDb S) {q : Payment} {db' : PaymentDb S}
      → submit_to_fraud S now dto actor r p db ≡ (ok q, db')
      → is_terminal q.status ≡ true
  unfolding submit_to_fraud fail_payment finish
  submit_to_fraud-ended now dto actor r p db {q} {db'} h =
      elim (Result-cases (gate S now dto actor p db)) [
        | inr (e, g) ↦ absurd (ground (arith, g, h))
        | inl (d, g) ↦ elim (Bool-cases (is_fraud_approved_for_payment d.final_decision)) [
          | inl a ↦ process-ended now dto r p db {q = q} {db' = db'} (ground (arith, g, a, h))
          | inr a ↦ ground (arith, g, a, h)
        ]
      ]

  submit_resolved-ended :
      (now : ℕ) (dto : CreatePaymentDto) (actor : ℕ) (r : IdempotencyRecord) (p : Payment)
      (db : PaymentDb S) {q : Payment} {db' : PaymentDb S}
      → submit_resolved S now dto actor r p db ≡ (ok q, db')
      → is_terminal q.status ≡ true
  unfolding submit_resolved
  submit_resolved-ended now dto actor r p db {q} {db'} h =
      elim (Result-cases (assert_owned_by_actor S dto.type p actor db)) [
        | inr (e, o) ↦ absurd (ground (arith, o, h))
        | inl (u, o) ↦ elim (Bool-cases (is_terminal p.status)) [
          | inl t ↦ ground (arith, o, t, h)
          | inr t ↦
              submit_to_fraud-ended now dto actor r p db {q = q} {db' = db'}
                (ground (arith, o, t, h))
        ]
      ]

  -- Whatever a submission returns has ended: it is `COMPLETED` or `FAILED`.
  pub submit_payment-ended :
      (now : ℕ) (dto : CreatePaymentDto) (actor : ℕ) (db : PaymentDb S) {q : Payment}
      {db' : PaymentDb S}
      → submit_payment S now dto actor db ≡ (ok q, db')
      → is_terminal q.status ≡ true
  unfolding submit_payment submit_payment_with_shared_manager
  submit_payment-ended now dto actor db {q} {db'} h =
      let slot =
        resolve_idempotency_slot S now dto (text_or [] dto.idempotency_scope_key)
          (S.hash (body dto)) db in
      elim (Result-cases slot.0) [
        | inr (e, s) ↦ absurd (ground (arith, s, h))
        | inl ((r, p), s) ↦ elim (Result-cases (submit_resolved S now dto actor r p slot.1).0) [
          | inr (e, x) ↦ absurd (ground (arith, s, x, h))
          | inl (p', x) ↦
              submit_resolved-ended now dto actor r p slot.1 {q = q}
                {db' = (submit_resolved S now dto actor r p slot.1).1} (ground (arith, s, x, h))
        ]
      ]
