-- ===== src/Payments/Money.antt =====
-- What a payment does to the money of the accounts.
use fintech_nova_pay.Common.{
  ℕ, ◌≡◌, refl, sym, ap, ◌⊎◌, inl, inr, true, some, List, [], Bool-cases, arith,
}
use mathlib.Core.Path.{subst}
use fintech_nova_pay.Common.Result.{ok, Result-cases}
use fintech_nova_pay.Common.Dict.{elem}
use fintech_nova_pay.Common.Text.{trim}
use fintech_nova_pay.Accounts.Entity.{Currency}
use fintech_nova_pay.Ledger.Entity.{PostLedgerTransactionDto}
use fintech_nova_pay.Ledger.Lines.{distinct}
use fintech_nova_pay.Ledger.Store.{Db, Posted}
use fintech_nova_pay.Ledger.Posting.{post_with_shared_manager}
use fintech_nova_pay.Ledger.Conservation.{total}
use fintech_nova_pay.Ledger.Outcome.{post-total}
use fintech_nova_pay.Ledger.Atomicity.{Readable, post_err-Untouched}
use fintech_nova_pay.Payments.Entity.{
  Payment, PaymentStatus, IdempotencyRecord, CreatePaymentDto, is_terminal,
}
use fintech_nova_pay.Payments.Store.{PaymentStore, PaymentDb}
use fintech_nova_pay.Payments.Slot.{resolve_idempotency_slot}
use fintech_nova_pay.Payments.Requests.{
  body, text_or, is_fraud_approved_for_payment, build_ledger_post_dto,
}
use fintech_nova_pay.Payments.Orchestrator.{
  assert_owned_by_actor, gate, finish, fail_payment, complete_payment, process, submit_to_fraud,
  submit_resolved, submit_payment_with_shared_manager, submit_payment,
}
use fintech_nova_pay.Payments.SlotMoney.{slot-accounts}

module _ (S : PaymentStore) where
  open S use {ledger as L, records as R, payments as P}

  abbrev pub ledger_dto : CreatePaymentDto → Payment → PostLedgerTransactionDto
  ledger_dto dto p = build_ledger_post_dto S.uuid_text dto p.id

  -- An approved path that returns, with readable balances before it, ends in one of two ways: the
  -- payment is `FAILED` and the accounts and lines are as they were, or it is `COMPLETED` with the
  -- identifier of the transaction that the ledger returned, and the accounts and lines are those
  -- that the posting left.
  pub process-cases :
      (now : ℕ) (dto : CreatePaymentDto) (r : IdempotencyRecord) (p : Payment) (db : PaymentDb S)
      {q : Payment} {db' : PaymentDb S}
      → Readable L.accounts db.ledger.accounts
      → process S now dto r p db ≡ (ok q, db')
      → ((q.status ≡ PaymentStatus.failed)
          × (db'.ledger.accounts ≡ db.ledger.accounts)
          × (db'.ledger.entries ≡ db.ledger.entries))
        ⊎ ((posted : Posted) × (ledger : Db L) × (q.status ≡ PaymentStatus.completed)
            × (q.ledger_transaction_id ≡ some posted.header.id)
            × (post_with_shared_manager L now
                  (ledger_dto dto p)
                  (trim (ledger_dto dto p).correlation_id)
                  db.ledger
                ≡ (ok posted, ledger))
            × (db'.ledger.accounts ≡ ledger.accounts)
            × (db'.ledger.entries ≡ ledger.entries))
  unfolding process complete_payment fail_payment finish
  process-cases now dto r p db {q} {db'} read h =
      let post = ledger_dto dto p in
      let done = post_with_shared_manager L now post (trim post.correlation_id) db.ledger in
      elim (Result-cases done.0) [
        | inl (x, e) ↦ inr (
          x,
          done.1,
          ground (arith, e, h),
          ground (arith, e, h),
          ground (arith, e),
          ground (arith, e, h),
          ground (arith, e, h),
        )
        | inr (x, e) ↦
            let same =
              post_err-Untouched L now post (trim post.correlation_id) db.ledger {e = x}
                {db' = done.1} read (ground (arith, e)) in
            inl (ground (arith, e, h), ground (arith, e, h, same), ground (arith, e, h, same))
      ]

  module _ (c : Currency) (ks : List ℕ) (dto : CreatePaymentDto) (d : distinct ks ≡ true)
      (s : elem dto.source_account_id ks ≡ true)
      (t : elem dto.destination_account_id ks ≡ true) where
    process-total :
        (now : ℕ) (r : IdempotencyRecord) (p : Payment) (db : PaymentDb S)
        → Readable L.accounts db.ledger.accounts
        → total L.accounts c ks (process S now dto r p db).1.ledger.accounts
          ≡ total L.accounts c ks db.ledger.accounts
    unfolding process complete_payment fail_payment finish build_ledger_post_dto
    process-total now r p db read =
        let post = ledger_dto dto p in
        let done = post_with_shared_manager L now post (trim post.correlation_id) db.ledger in
        elim (Result-cases done.0) [
          | inl (x, e) ↦
              let same =
                post-total L c ks now post (trim post.correlation_id) db.ledger {r = x}
                  {db' = done.1} d (rw (s, t) refl) (ground (arith, e)) in
              ground (arith, e, same)
          | inr (x, e) ↦
              let same =
                post_err-Untouched L now post (trim post.correlation_id) db.ledger {e = x}
                  {db' = done.1} read (ground (arith, e)) in
              let kept = ap (total L.accounts c ks) same.accounts in ground (arith, e, kept)
        ]

    submit_to_fraud-total :
        (now actor : ℕ) (r : IdempotencyRecord) (p : Payment) (db : PaymentDb S)
        → Readable L.accounts db.ledger.accounts
        → total L.accounts c ks (submit_to_fraud S now dto actor r p db).1.ledger.accounts
          ≡ total L.accounts c ks db.ledger.accounts
    unfolding submit_to_fraud fail_payment finish
    submit_to_fraud-total now actor r p db read = elim (Result-cases (gate S now dto actor p db)) [
      | inr (e, g) ↦ ground (arith, g)
      | inl (x, g) ↦ elim (Bool-cases (is_fraud_approved_for_payment x.final_decision)) [
        | inl a ↦ let same = process-total now r p db read in ground (arith, g, a, same)
        | inr a ↦ ground (arith, g, a)
      ]
    ]

    submit_resolved-total :
        (now actor : ℕ) (r : IdempotencyRecord) (p : Payment) (db : PaymentDb S)
        → Readable L.accounts db.ledger.accounts
        → total L.accounts c ks (submit_resolved S now dto actor r p db).1.ledger.accounts
          ≡ total L.accounts c ks db.ledger.accounts
    unfolding submit_resolved
    submit_resolved-total now actor r p db read =
        elim (Result-cases (assert_owned_by_actor S dto.type p actor db)) [
          | inr (e, o) ↦ ground (arith, o)
          | inl (u, o) ↦ elim (Bool-cases (is_terminal p.status)) [
            | inl e ↦ ground (arith, o, e)
            | inr e ↦
                let same = submit_to_fraud-total now actor r p db read in ground (arith, o, e, same)
          ]
        ]

  -- The same inside the caller's transaction, where nothing is rolled back.
  pub submit_shared-total :
      (c : Currency) (ks : List ℕ) (now : ℕ) (dto : CreatePaymentDto) (actor : ℕ) (db : PaymentDb S)
      → distinct ks ≡ true
      → elem dto.source_account_id ks ≡ true
      → elem dto.destination_account_id ks ≡ true
      → Readable L.accounts db.ledger.accounts
      → total L.accounts c ks
          (submit_payment_with_shared_manager S now dto actor db).1.ledger.accounts
        ≡ total L.accounts c ks db.ledger.accounts
  unfolding submit_payment_with_shared_manager
  submit_shared-total c ks now dto actor db d s t read =
      let scope = text_or [] dto.idempotency_scope_key in
      let slot = resolve_idempotency_slot S now dto scope (S.hash (body dto)) db in
      let same = slot-accounts S now dto scope (S.hash (body dto)) db in
      let kept = ap (total L.accounts c ks) same in
      elim (Result-cases slot.0) [
        | inr (e, x) ↦ ground (arith, x, kept)
        | inl ((r, p), x) ↦
            let rest =
              submit_resolved-total c ks dto d s t now actor r p slot.1
                (subst (Readable L.accounts) (sym same) read) in
            ground (arith, x, rest, kept)
      ]

  -- A submission, whether it completes, fails or throws, leaves the money of every currency that a
  -- set of accounts holds as it was, if the set has the source and the destination and every
  -- stored balance is the text of a number.
  pub submit_payment-total :
      (c : Currency) (ks : List ℕ) (now : ℕ) (dto : CreatePaymentDto) (actor : ℕ) (db : PaymentDb S)
      → distinct ks ≡ true
      → elem dto.source_account_id ks ≡ true
      → elem dto.destination_account_id ks ≡ true
      → Readable L.accounts db.ledger.accounts
      → total L.accounts c ks (submit_payment S now dto actor db).1.ledger.accounts
        ≡ total L.accounts c ks db.ledger.accounts
  unfolding submit_payment
  submit_payment-total c ks now dto actor db d s t read =
      let kept = submit_shared-total c ks now dto actor db d s t read in
      elim (Result-cases (submit_payment_with_shared_manager S now dto actor db).0) [
        | inr (e, x) ↦ ground (arith, x)
        | inl (q, x) ↦ ground (arith, x, kept)
      ]
