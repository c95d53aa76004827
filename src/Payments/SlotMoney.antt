-- ===== src/Payments/SlotMoney.antt =====
-- What taking the slot of a command does to the accounts (`resolveIdempotencySlot`).
use fintech_nova_pay.Common.{ℕ, ◌≡◌, refl, ap, ◌∙◌, inl, inr, Bool-cases, Option-cases, arith}
use fintech_nova_pay.Common.Result.{Result-cases}
use fintech_nova_pay.Common.Text.{Text}
use fintech_nova_pay.Ledger.Store.{Inserted-cases}
use fintech_nova_pay.Payments.Entity.{Payment, IdempotencyRecord, CreatePaymentDto, is_terminal}
use fintech_nova_pay.Payments.Store.{PaymentStore, PaymentDb}
use fintech_nova_pay.Payments.Slot.{
  differs, new_record, new_payment_from_dto, find_or_insert_record, announce,
  find_or_insert_payment, settle_fingerprint, with_record, resolve_idempotency_slot,
}

module _ (S : PaymentStore) where
  open S use {ledger as L, records as R, payments as P}

  find_or_insert_record-ledger :
      (dto : CreatePaymentDto) (scope fingerprint : Text) (db : PaymentDb S)
      → (find_or_insert_record S dto scope fingerprint db).1.ledger ≡ db.ledger
  unfolding find_or_insert_record
  find_or_insert_record-ledger dto scope fingerprint db =
      elim (Option-cases (R.find_by_key dto.idempotency_key scope db.records)) [
        | inr (r, f) ↦ ground (arith, f)
        | inl f ↦ elim (Inserted-cases (R.insert (new_record dto scope fingerprint) db.records)) [
          | inl (i, t, s) ↦ ground (arith, f, s)
          | inr (inl (t, s)) ↦ elim (Option-cases (R.find_by_key dto.idempotency_key scope t)) [
            | inl g ↦ ground (arith, f, s, g)
            | inr (x, g) ↦ ground (arith, f, s, g)
          ]
          | inr (inr s) ↦ ground (arith, f, s)
        ]
      ]

  find_or_insert_payment-accounts :
      (now : ℕ) (dto : CreatePaymentDto) (r : IdempotencyRecord) (db : PaymentDb S)
      → (find_or_insert_payment S now dto r db).1.ledger.accounts ≡ db.ledger.accounts
  unfolding find_or_insert_payment announce
  find_or_insert_payment-accounts now dto r db =
      elim (Option-cases (P.find_by_record r.id db.payments)) [
        | inr (p, f) ↦ ground (arith, f)
        | inl f ↦ elim (Inserted-cases (P.insert (new_payment_from_dto r.id dto) db.payments)) [
          | inl (i, t, s) ↦ ground (arith, f, s)
          | inr (inl (t, s)) ↦ elim (Option-cases (P.find_by_record r.id t)) [
            | inl g ↦ ground (arith, f, s, g)
            | inr (x, g) ↦ ground (arith, f, s, g)
          ]
          | inr (inr s) ↦ ground (arith, f, s)
        ]
      ]

  settle_fingerprint-ledger :
      (fingerprint : Text) (r : IdempotencyRecord) (p : Payment) (db : PaymentDb S)
      → (settle_fingerprint S fingerprint r p db).1.ledger ≡ db.ledger
  unfolding settle_fingerprint
  settle_fingerprint-ledger fingerprint r p db = elim (Bool-cases (is_terminal p.status)) [
    | inl t ↦ rw t refl
    | inr t ↦ elim (Option-cases r.request_fingerprint) [
      | inl f ↦ rw (t, f) refl
      | inr (x, f) ↦ rw (t, f) refl
    ]
  ]

  with_record-accounts :
      (now : ℕ) (dto : CreatePaymentDto) (fingerprint : Text) (r : IdempotencyRecord)
      (db : PaymentDb S)
      → (with_record S now dto fingerprint r db).1.ledger.accounts ≡ db.ledger.accounts
  unfolding with_record
  with_record-accounts now dto fingerprint r db =
      elim (Bool-cases (differs r.request_fingerprint fingerprint)) [
        | inl d ↦ rw d refl
        | inr d ↦
            let found = find_or_insert_payment S now dto r db in
            elim (Result-cases found.0) [
              | inr (e, f) ↦ rw (d, f) (find_or_insert_payment-accounts now dto r db)
              | inl ((r₁, p), f) ↦
                  rw (d, f)
                    (ap (λ l. l.accounts) (settle_fingerprint-ledger fingerprint r₁ p found.1)
                      ∙ find_or_insert_payment-accounts now dto r db)
            ]
      ]

  pub slot-accounts :
      (now : ℕ) (dto : CreatePaymentDto) (scope fingerprint : Text) (db : PaymentDb S)
      → (resolve_idempotency_slot S now dto scope fingerprint db).1.ledger.accounts
        ≡ db.ledger.accounts
  unfolding resolve_idempotency_slot
  slot-accounts now dto scope fingerprint db =
      let found = find_or_insert_record S dto scope fingerprint db in
      let same = ap (λ l. l.accounts) (find_or_insert_record-ledger dto scope fingerprint db) in
      elim (Result-cases found.0) [
        | inr (e, f) ↦ ground (arith, f, same)
        | inl (r, f) ↦
            let rest = with_record-accounts now dto fingerprint r found.1 ∙ same in
            ground (arith, f, rest)
      ]
