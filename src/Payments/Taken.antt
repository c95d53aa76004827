-- ===== src/Payments/Taken.antt =====
-- The record and the payment that a submission works on, and what it has written of them at its end.
use fintech_nova_pay.Common.{
  ℕ, ◌≡◌, refl, sym, ap, ◌∙◌, ◌⊎◌, false, some, inl, inr, Bool-cases, Option-cases, arith,
}
use fintech_nova_pay.Common.Result.{ok, Result-cases}
use fintech_nova_pay.Common.Text.{Text, trim}
use fintech_nova_pay.Common.Text.Laws.{same_text_self}
use fintech_nova_pay.Ledger.Store.{Inserted-cases}
use fintech_nova_pay.Ledger.Posting.{post_with_shared_manager}
use fintech_nova_pay.Payments.Entity.{
  Payment, PaymentStatus, IdempotencyRecord, IdempotencyRecordStatus, CreatePaymentDto, is_terminal,
}
use fintech_nova_pay.Payments.Store.{PaymentStore, PaymentDb}
use fintech_nova_pay.Payments.Slot.{
  differs, new_record, new_payment_from_dto, announce, find_or_insert_record,
  find_or_insert_payment, settle_fingerprint, with_record, resolve_idempotency_slot,
}
use fintech_nova_pay.Payments.Requests.{is_fraud_approved_for_payment, build_ledger_post_dto}
use fintech_nova_pay.Payments.Orchestrator.{
  gate, finish, fail_payment, complete_payment, process, submit_to_fraud,
}

marked :
    (r r' : IdempotencyRecord) {f : Text}
    → r' ≡ record r { request_fingerprint = some f }
    → r.id ≡ r'.id
marked r r' h = sym (ap (λ x. x.id) h)

module _ (S : PaymentStore) where
  open S use {ledger as L, records as R, payments as P}

  -- The record of a key and scope, and what it was taken for.
  pub record Slotted (k c : Text) (r : IdempotencyRecord) (db : PaymentDb S) : Type 0 where
    pub found : R.find_by_key k c db.records ≡ some r
    pub key : r.idempotency_key ≡ k
    pub scope : r.scope_key ≡ c

  find_or_insert_record-Slotted :
      (dto : CreatePaymentDto) (scope fingerprint : Text) (db : PaymentDb S) {r : IdempotencyRecord}
      {db₁ : PaymentDb S}
      → find_or_insert_record S dto scope fingerprint db ≡ (ok r, db₁)
      → Slotted dto.idempotency_key scope r db₁
  unfolding find_or_insert_record
  find_or_insert_record-Slotted dto scope fingerprint db {r} {db₁} h =
      let there : R.find_by_key dto.idempotency_key scope db₁.records ≡ some r =
        elim (Option-cases (R.find_by_key dto.idempotency_key scope db.records)) [
          | inr (x, f) ↦ ground (arith, f, h)
          | inl f ↦ elim (Inserted-cases (R.insert (new_record dto scope fingerprint) db.records)) [
            | inl (i, t, s) ↦
                let new = R.insert-find (new_record dto scope fingerprint) db.records s in
                ground (arith, f, s, h, new)
            | inr (inr s) ↦ absurd (ground (arith, f, s, h))
            | inr (inl (t, s)) ↦ elim (Option-cases (R.find_by_key dto.idempotency_key scope t)) [
              | inl g ↦ absurd (ground (arith, f, s, g, h))
              | inr (x, g) ↦ ground (arith, f, s, g, h)
            ]
          ]
        ] in
      let (k, s) = R.find-key dto.idempotency_key scope db₁.records there in
      record { found = there; key = k; scope = s }

  pub saved-Slotted :
      (key scope : Text) (r r' : IdempotencyRecord) (t : R.Rows) (db db' : PaymentDb S)
      → Slotted key scope r db
      → r'.idempotency_key ≡ r.idempotency_key
      → r'.scope_key ≡ r.scope_key
      → db'.records ≡ R.save r' t
      → Slotted key scope r' db'
  saved-Slotted key scope r r' t db db' s k c e =
      let there = R.find-save r' t in
      record {
        found = rw (e, ← s.key, ← s.scope, ← k, ← c) there;
        key = k ∙ s.key;
        scope = c ∙ s.scope;
      }

  -- The payment of a record: stored, or one that has not ended.
  pub record Linked (r : IdempotencyRecord) (p : Payment) (db : PaymentDb S) : Type 0 where
    pub of_record : p.idempotency_record_id ≡ r.id
    pub stored : (is_terminal p.status ≡ false) ⊎ (P.find_by_record r.id db.payments ≡ some p)

  found-Linked :
      (r r₁ : IdempotencyRecord) (p : Payment) (db : PaymentDb S)
      → r₁.id ≡ r.id
      → P.find_by_record r.id db.payments ≡ some p
      → Linked r₁ p db
  found-Linked r r₁ p db i f = record {
    of_record = P.find-record r.id db.payments f ∙ sym i;
    stored = inr (rw i f);
  }

  find_or_insert_payment-Linked :
      (now : ℕ) (dto : CreatePaymentDto) (key scope : Text) (r : IdempotencyRecord)
      (db : PaymentDb S) {r₁ : IdempotencyRecord} {p : Payment} {db₁ : PaymentDb S}
      → Slotted key scope r db
      → find_or_insert_payment S now dto r db ≡ (ok (r₁, p), db₁)
      → Slotted key scope r₁ db₁
        × Linked r₁ p db₁
        × (r₁.request_fingerprint ≡ r.request_fingerprint)
  unfolding find_or_insert_payment announce new_payment_from_dto
  find_or_insert_payment-Linked now dto key scope r db {r₁} {p} {db₁} s h =
      elim (Option-cases (P.find_by_record r.id db.payments)) [
        | inr (q, f) ↦
            let same : r₁ ≡ r = ground (arith, f, h) in
            let there : P.find_by_record r.id db₁.payments ≡ some p = ground (arith, f, h) in
            let kept : db₁.records ≡ db.records = ground (arith, f, h) in
            (
              rw same (record { found = rw kept s.found; key = s.key; scope = s.scope }),
              found-Linked r r₁ p db₁ (ap (λ x. x.id) same) there,
              ap (λ x. x.request_fingerprint) same,
            )
        | inl f ↦ elim (Inserted-cases (P.insert (new_payment_from_dto r.id dto) db.payments)) [
          | inl (i, t, x) ↦ (
            saved-Slotted key scope r r₁ db.records db db₁ s (ground (arith, f, x, h))
                (ground (arith, f, x, h)) (ground (arith, f, x, h)),
            record { of_record = ground (arith, f, x, h); stored = inl (ground (arith, f, x, h)) },
            ground (arith, f, x, h),
          )
          | inr (inr x) ↦ absurd (ground (arith, f, x, h))
          | inr (inl (t, x)) ↦ elim (Option-cases (P.find_by_record r.id t)) [
            | inl g ↦ absurd (ground (arith, f, x, g, h))
            | inr (q, g) ↦
                let same : r₁ ≡ r = ground (arith, f, x, g, h) in
                let there : P.find_by_record r.id db₁.payments ≡ some p =
                  ground (arith, f, x, g, h) in
                let kept : db₁.records ≡ db.records = ground (arith, f, x, g, h) in
                (
                  rw same (record { found = rw kept s.found; key = s.key; scope = s.scope }),
                  found-Linked r r₁ p db₁ (ap (λ x. x.id) same) there,
                  ap (λ x. x.request_fingerprint) same,
                )
          ]
        ]
      ]

  -- The slot that a submission works on.
  pub record Taken (k c fingerprint : Text) (r : IdempotencyRecord) (p : Payment) (db : PaymentDb S)
      : Type 0 where
    pub slot : Slotted k c r db
    pub link : Linked r p db
    pub same : differs r.request_fingerprint fingerprint ≡ false

  settle_fingerprint-Taken :
      (k c fingerprint : Text) (r : IdempotencyRecord) (p : Payment) (db : PaymentDb S)
      {r₁ : IdempotencyRecord} {p₁ : Payment} {db₁ : PaymentDb S}
      → Taken k c fingerprint r p db
      → settle_fingerprint S fingerprint r p db ≡ (ok (r₁, p₁), db₁)
      → Taken k c fingerprint r₁ p₁ db₁
  unfolding settle_fingerprint
  settle_fingerprint-Taken k c fingerprint r p db {r₁} {p₁} {db₁} t h =
      elim (Bool-cases (is_terminal p.status)) [
        | inl e ↦
            let a : r₁ ≡ r = ground (arith, e, h) in
            let b : p₁ ≡ p = ground (arith, e, h) in
            let d : db₁ ≡ db = ground (arith, e, h) in rw (a, b, d) t
        | inr e ↦ elim (Option-cases r.request_fingerprint) [
          | inr (f, g) ↦
              let a : r₁ ≡ r = ground (arith, e, g, h) in
              let b : p₁ ≡ p = ground (arith, e, g, h) in
              let d : db₁ ≡ db = ground (arith, e, g, h) in rw (a, b, d) t
          | inl g ↦
              let own = same_text_self fingerprint in
              let b : p₁ ≡ p = ground (arith, e, g, h) in
              record {
                slot =
                    saved-Slotted k c r r₁ db.records db db₁ t.slot (ground (arith, e, g, h))
                      (ground (arith, e, g, h)) (ground (arith, e, g, h));
                link = record {
                  of_record =
                      ap (λ x. x.idempotency_record_id) b
                      ∙ t.link.of_record
                      ∙ marked r r₁ {f = fingerprint} (ground (arith, e, g, h));
                  stored = inl (rw b e);
                };
                same = ground (arith, e, g, h, own);
              }
        ]
      ]

  pub slot-Taken :
      (now : ℕ) (dto : CreatePaymentDto) (c fingerprint : Text) (db : PaymentDb S)
      {r : IdempotencyRecord} {p : Payment} {db₁ : PaymentDb S}
      → resolve_idempotency_slot S now dto c fingerprint db ≡ (ok (r, p), db₁)
      → Taken dto.idempotency_key c fingerprint r p db₁
  unfolding resolve_idempotency_slot with_record
  slot-Taken now dto c fingerprint db {r} {p} {db₁} h =
      let first = find_or_insert_record S dto c fingerprint db in
      elim (Result-cases first.0) [
        | inr (e, x) ↦ absurd (ground (arith, x, h))
        | inl (r₀, x) ↦ elim (Bool-cases (differs r₀.request_fingerprint fingerprint)) [
          | inl y ↦ absurd (ground (arith, x, y, h))
          | inr y ↦
              let second = find_or_insert_payment S now dto r₀ first.1 in
              elim (Result-cases second.0) [
                | inr (e, z) ↦ absurd (ground (arith, x, y, z, h))
                | inl ((r₁, p₁), z) ↦
                    let slot =
                      find_or_insert_record-Slotted dto c fingerprint db {r = r₀} {db₁ = first.1}
                        (ground (arith, x)) in
                    let (slot', link, f) =
                      find_or_insert_payment-Linked now dto dto.idempotency_key c r₀ first.1
                        {r₁ = r₁} {p = p₁} {db₁ = second.1} slot (ground (arith, z)) in
                    settle_fingerprint-Taken dto.idempotency_key c fingerprint r₁ p₁ second.1
                      {r₁ = r} {p₁ = p} {db₁ = db₁}
                      (record { slot = slot'; link = link; same = rw f y })
                      (ground (arith, x, y, z, h))
              ]
        ]
      ]

  -- What the path has written at its end.
  pub record Saved (r : IdempotencyRecord) (p q : Payment) (db db' : PaymentDb S) : Type 0 where
    pub last : IdempotencyRecord
    pub rows : P.Rows
    pub records : db'.records ≡ R.save last db.records
    pub payments : db'.payments ≡ P.save q rows
    pub key : last.idempotency_key ≡ r.idempotency_key
    pub scope : last.scope_key ≡ r.scope_key
    pub id : last.id ≡ r.id
    pub fingerprint : last.request_fingerprint ≡ r.request_fingerprint
    pub of_record : q.idempotency_record_id ≡ p.idempotency_record_id

  process-Saved :
      (now : ℕ) (dto : CreatePaymentDto) (r : IdempotencyRecord) (p : Payment) (db : PaymentDb S)
      {q : Payment} {db' : PaymentDb S}
      → process S now dto r p db ≡ (ok q, db')
      → Saved r p q db db'
  unfolding process complete_payment fail_payment finish
  process-Saved now dto r p db {q} {db'} h =
      let post = build_ledger_post_dto S.uuid_text dto p.id in
      elim (Result-cases
        (post_with_shared_manager L now post (trim post.correlation_id) db.ledger).0) [
          | inl (y, x) ↦ record {
            last = record r { status = IdempotencyRecordStatus.completed };
            rows = P.save (record p { status = PaymentStatus.processing }) db.payments;
            records = ground (arith, x, h);
            payments = ground (arith, x, h);
            key = refl;
            scope = refl;
            id = refl;
            fingerprint = refl;
            of_record = ground (arith, x, h);
          }
          | inr (e, x) ↦ record {
            last = record r { status = IdempotencyRecordStatus.failed };
            rows = P.save (record p { status = PaymentStatus.processing }) db.payments;
            records = ground (arith, x, h);
            payments = ground (arith, x, h);
            key = refl;
            scope = refl;
            id = refl;
            fingerprint = refl;
            of_record = ground (arith, x, h);
          }
        ]

  pub submit_to_fraud-Saved :
      (now : ℕ) (dto : CreatePaymentDto) (actor : ℕ) (r : IdempotencyRecord) (p : Payment)
      (db : PaymentDb S) {q : Payment} {db' : PaymentDb S}
      → submit_to_fraud S now dto actor r p db ≡ (ok q, db')
      → Saved r p q db db'
  unfolding submit_to_fraud fail_payment finish
  submit_to_fraud-Saved now dto actor r p db {q} {db'} h =
      elim (Result-cases (gate S now dto actor p db)) [
        | inr (e, g) ↦ absurd (ground (arith, g, h))
        | inl (d, g) ↦ elim (Bool-cases (is_fraud_approved_for_payment d.final_decision)) [
          | inl a ↦ process-Saved now dto r p db {q = q} {db' = db'} (ground (arith, g, a, h))
          | inr a ↦ record {
            last = record r { status = IdempotencyRecordStatus.failed };
            rows = db.payments;
            records = ground (arith, g, a, h);
            payments = ground (arith, g, a, h);
            key = refl;
            scope = refl;
            id = refl;
            fingerprint = refl;
            of_record = ground (arith, g, a, h);
          }
        ]
      ]
