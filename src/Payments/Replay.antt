-- ===== src/Payments/Replay.antt =====
-- A command submitted again after a submission that returned.
use fintech_nova_pay.Common.{
  ℕ, ◌≡◌, refl, sym, ap, ◌∙◌, ◌⊎◌, true, false, some, inl, inr, [], Bool-cases, arith,
}
use fintech_nova_pay.Common.Int.{ℤ}
use fintech_nova_pay.Common.Result.{ok, Result-cases, ◌>>=◌}
use fintech_nova_pay.Common.Action.{transaction-eq-ok}
use fintech_nova_pay.Common.Text.{Text}
use fintech_nova_pay.Decimal.{parse_scaled_amount, parse_amount_to_big_int4}
use fintech_nova_pay.Decimal.Agreement.{parsers_agree}
use fintech_nova_pay.Payments.Entity.{Payment, IdempotencyRecord, CreatePaymentDto, is_terminal}
use fintech_nova_pay.Payments.Store.{PaymentStore, PaymentDb, reread_payment}
use fintech_nova_pay.Payments.Slot.{
  differs, find_or_insert_record, find_or_insert_payment, settle_fingerprint, with_record,
  resolve_idempotency_slot,
}
use fintech_nova_pay.Payments.Requests.{body, text_or}
use fintech_nova_pay.Payments.Orchestrator.{
  assert_owned_by_actor, submit_resolved, submit_payment_with_shared_manager, submit_payment,
}
use fintech_nova_pay.Payments.Gate.{submit_payment-ended}
use fintech_nova_pay.Payments.Taken.{saved-Slotted, Taken, slot-Taken, Saved, submit_to_fraud-Saved}

module _ (S : PaymentStore) where
  open S use {ledger as L, records as R, payments as P}

  -- The payment as it was returned, or with its amount as the column spells it.
  abbrev pub SamePayment : Payment → Payment → Type 0
  SamePayment p q = (q ≡ p) ⊎ (q ≡ reread_payment P.column p)

  -- What a submission that returned has left under its key and scope.
  record Stored (k c fingerprint : Text) (p : Payment) (db : PaymentDb S) : Type 0 where
    pub holder : IdempotencyRecord
    pub payment : Payment
    pub found : R.find_by_key k c db.records ≡ some holder
    pub same : differs holder.request_fingerprint fingerprint ≡ false
    pub linked : P.find_by_record holder.id db.payments ≡ some payment
    pub kept : SamePayment p payment

  Saved-Stored :
      (k c fingerprint : Text) (r : IdempotencyRecord) (p q : Payment) (db db' : PaymentDb S)
      → Taken S k c fingerprint r p db
      → Saved S r p q db db'
      → Stored k c fingerprint q db'
  Saved-Stored k c fingerprint r p q db db' t s =
      let of_holder : q.idempotency_record_id ≡ s.last.id =
        s.of_record ∙ t.link.of_record ∙ sym s.id in
      let slot = saved-Slotted S k c r s.last db.records db db' t.slot s.key s.scope s.records in
      record {
        holder = s.last;
        payment = reread_payment P.column q;
        found = slot.found;
        same = rw s.fingerprint t.same;
        linked = rw (s.payments, ← of_holder) (P.find-save q s.rows);
        kept = inr refl;
      }

  submit_resolved-Stored :
      (now : ℕ) (dto : CreatePaymentDto) (actor : ℕ) (k c fingerprint : Text)
      (r : IdempotencyRecord) (p : Payment) (db : PaymentDb S) {q : Payment} {db' : PaymentDb S}
      → Taken S k c fingerprint r p db
      → submit_resolved S now dto actor r p db ≡ (ok q, db')
      → Stored k c fingerprint q db'
  unfolding submit_resolved
  submit_resolved-Stored now dto actor k c fingerprint r p db {q} {db'} t h =
      elim (Result-cases (assert_owned_by_actor S dto.type p actor db)) [
        | inr (e, o) ↦ absurd (ground (arith, o, h))
        | inl (u, o) ↦ elim (Bool-cases (is_terminal p.status)) [
          | inr n ↦ Saved-Stored k c fingerprint r p q db db' t (
              submit_to_fraud-Saved S now dto actor r p db {q = q} {db' = db'}
                (ground (arith, o, n, h)))
          | inl n ↦
              let a : p ≡ q = ground (arith, o, n, h) in
              let d : db' ≡ db = ground (arith, o, n, h) in
              elim t.link.stored [
                | inl going ↦ absurd (ground (arith, n, going))
                | inr there ↦ record {
                  holder = r;
                  payment = p;
                  found = rw d t.slot.found;
                  same = t.same;
                  linked = rw d there;
                  kept = inl a;
                }
              ]
        ]
      ]

  submit_payment-Stored :
      (now : ℕ) (dto : CreatePaymentDto) (actor : ℕ) (db : PaymentDb S) {q : Payment}
      {db' : PaymentDb S}
      → submit_payment S now dto actor db ≡ (ok q, db')
      → Stored dto.idempotency_key (text_or [] dto.idempotency_scope_key) (S.hash (body dto)) q db'
  unfolding submit_payment submit_payment_with_shared_manager
  submit_payment-Stored now dto actor db {q} {db'} h =
      let c = text_or [] dto.idempotency_scope_key in
      let fingerprint = S.hash (body dto) in
      let slot = resolve_idempotency_slot S now dto c fingerprint db in
      let run =
        transaction-eq-ok (submit_payment_with_shared_manager S now dto actor) db {a = q} {s' = db'}
          h in
      elim (Result-cases slot.0) [
        | inr (e, s) ↦ absurd (ground (arith, s, run))
        | inl ((r, p), s) ↦
            submit_resolved-Stored now dto actor dto.idempotency_key c fingerprint r p slot.1
              {q = q} {db' = db'}
              (slot-Taken S now dto c fingerprint db {r = r} {p = p} {db₁ = slot.1}
                (ground (arith, s)))
              (ground (arith, s, run))
      ]

  slot-ended :
      (now : ℕ) (dto : CreatePaymentDto) (scope fingerprint : Text) (db : PaymentDb S)
      (r : IdempotencyRecord) (p : Payment)
      → R.find_by_key dto.idempotency_key scope db.records ≡ some r
      → differs r.request_fingerprint fingerprint ≡ false
      → P.find_by_record r.id db.payments ≡ some p
      → is_terminal p.status ≡ true
      → resolve_idempotency_slot S now dto scope fingerprint db ≡ (ok (r, p), db)
  unfolding resolve_idempotency_slot find_or_insert_record with_record find_or_insert_payment
      settle_fingerprint
  slot-ended now dto scope fingerprint db r p f d g e = ground (arith, f, d, g, e)

  -- A command whose payment is stored and has ended: the owner gets that payment, another caller the
  -- exception of the ownership check, and nothing is written.
  ended-replayed :
      (now : ℕ) (dto : CreatePaymentDto) (actor : ℕ) (db : PaymentDb S) (r : IdempotencyRecord)
      (p : Payment)
      → R.find_by_key dto.idempotency_key (text_or [] dto.idempotency_scope_key) db.records ≡ some r
      → differs r.request_fingerprint (S.hash (body dto)) ≡ false
      → P.find_by_record r.id db.payments ≡ some p
      → is_terminal p.status ≡ true
      → submit_payment S now dto actor db
        ≡ ((assert_owned_by_actor S dto.type p actor db >>= λ u. ok p), db)
  unfolding submit_payment submit_payment_with_shared_manager submit_resolved
  ended-replayed now dto actor db r p f d g e =
      let slot =
        slot-ended now dto (text_or [] dto.idempotency_scope_key) (S.hash (body dto)) db r p f d g
          e in
      elim (Result-cases (assert_owned_by_actor S dto.type p actor db)) [
        | inl (u, o) ↦ ground (arith, slot, o, e)
        | inr (x, o) ↦ ground (arith, slot, o, e)
      ]

  same_amount :
      (p q : Payment) {v : ℤ}
      → parse_scaled_amount p.amount ≡ ok v
      → SamePayment p q
      → parse_amount_to_big_int4 q.amount ≡ ok v
  same_amount p q h (inl e) = rw e (parsers_agree p.amount h).1
  same_amount p q h (inr e) = rw e (P.column-value p.amount h)

  same_status : (p q : Payment) → SamePayment p q → q.status ≡ p.status
  same_status p q (inl e) = ap (λ x. x.status) e
  same_status p q (inr e) = ap (λ x. x.status) e

  -- After a submission that returned a payment, the same body under the same key and scope writes
  -- nothing. The owner of the account gets that payment, its amount the same number in the same or
  -- the column's spelling; another caller gets the exception of the ownership check.
  pub submit_payment-replay :
      (now : ℕ) (dto : CreatePaymentDto) (actor : ℕ) (db : PaymentDb S) {p : Payment}
      {db' : PaymentDb S} {v : ℤ}
      → submit_payment S now dto actor db ≡ (ok p, db')
      → parse_scaled_amount p.amount ≡ ok v
      → (now' : ℕ) (dto' : CreatePaymentDto) (actor' : ℕ)
      → dto'.idempotency_key ≡ dto.idempotency_key
      → text_or [] dto'.idempotency_scope_key ≡ text_or [] dto.idempotency_scope_key
      → body dto' ≡ body dto
      → (q : Payment) × SamePayment p q
        × (parse_amount_to_big_int4 q.amount ≡ ok v)
        × (submit_payment S now' dto' actor' db'
            ≡ ((assert_owned_by_actor S dto'.type q actor' db' >>= λ u. ok q), db'))
  submit_payment-replay now dto actor db {p} {db'} h a now' dto' actor' k c b =
      let s = submit_payment-Stored now dto actor db {q = p} {db' = db'} h in
      let ended = submit_payment-ended S now dto actor db {q = p} {db' = db'} h in
      let ended' : is_terminal s.payment.status ≡ true =
        rw (same_status p s.payment s.kept) ended in
      (
        s.payment,
        s.kept,
        same_amount p s.payment a s.kept,
        ended-replayed now' dto' actor' db' s.holder s.payment (rw (k, c) s.found) (rw b s.same)
            s.linked ended',
      )
