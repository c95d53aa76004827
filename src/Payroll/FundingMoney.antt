-- ===== src/Payroll/FundingMoney.antt =====
-- What the funding of a batch and the steps of its status do to the money of the accounts.
use fintech_nova_pay.Common.{
  ℕ, ◌≡◌, refl, ◌∙◌, ap, inl, inr, Bool-cases, true, Option, none, some, List, Option-cases, arith,
}
use mathlib.Core.Path.{subst}
use fintech_nova_pay.Common.Result.{Exception, Result-cases, ok, or_throw-eq-ok}
use fintech_nova_pay.Common.Dict.{elem}
use fintech_nova_pay.Common.Text.{trim}
use fintech_nova_pay.Accounts.Entity.{Currency}
use fintech_nova_pay.Ledger.Lines.{distinct}
use fintech_nova_pay.Ledger.Conservation.{total}
use fintech_nova_pay.Ledger.Outcome.{post-total}
use fintech_nova_pay.Ledger.Posting.{post_with_shared_manager}
use fintech_nova_pay.Ledger.Store.{Inserted-cases}
use fintech_nova_pay.Payroll.Entity.{
  PayrollBatch, PayrollBatchStatus, draft, funding_reserved, disbursing, completed, failed,
  cancelled, PayrollItem, PayrollFundingReservation, ProcessPayrollBatchDto, is_draft,
  is_disbursing,
}
use fintech_nova_pay.Payroll.Validation.{assert_batch_ready_for_processing}
use fintech_nova_pay.Payroll.Store.{PayrollStore, PayrollDb, enqueue_payroll_event}
use fintech_nova_pay.Payroll.Payouts.{clearing_account_id}
use fintech_nova_pay.Payroll.Finish.{
  fail_batch, complete_batch, mark_batch_funding_failed, finalize_locked,
  finalize_payroll_batch_after_disbursement,
}
use fintech_nova_pay.Payroll.Funding.{
  funding_dto, reservation_of, already_posted, is_posted_row, update_batch_status, save_reservation,
  post_funding, reserve_in_transaction, reserve_employer_funds, fund_draft, prepare,
}
use fintech_nova_pay.Payroll.PayoutMoney.{held}

module _ (S : PayrollStore) (c : Currency) (ks : List ℕ) (d : distinct ks ≡ true)
    (house : (x : Currency) (a : ℕ) → S.clearing x ≡ some a → elem a ks ≡ true) where
  open S use {ledger as L, items as I, batches as B, reservations as R}

  -- Another step of the batch: accounts and items are as they were.
  pub record Aside (db db' : PayrollDb S) : Type 0 where
    pub ledger : db'.ledger.accounts ≡ db.ledger.accounts
    pub items : db'.items ≡ db.items

  Aside-refl : (db : PayrollDb S) → Aside db db
  Aside-refl db = record { ledger = refl; items = refl }

  update_batch_status-Aside :
      (id : ℕ) (s : PayrollBatchStatus) (db : PayrollDb S)
      → Aside db (update_batch_status S id s db)
  unfolding update_batch_status
  update_batch_status-Aside id s db = elim (Option-cases (B.find id db.batches)) [
    | inl f ↦ record { ledger = ground (arith, f); items = ground (arith, f) }
    | inr (b, f) ↦ record { ledger = ground (arith, f); items = ground (arith, f) }
  ]

  save_reservation-Aside :
      (locked : PayrollBatch) (tx : ℕ) (r : Option PayrollFundingReservation) (db : PayrollDb S)
      → Aside db (save_reservation S locked tx r db).1
  unfolding save_reservation
  save_reservation-Aside locked tx (some r) db = record { ledger = refl; items = refl }
  save_reservation-Aside locked tx none db =
      elim (Inserted-cases (S.insert_reservation (reservation_of locked tx) db.reservations)) [
        | inl (k, t, i) ↦ record { ledger = ground (arith, i); items = ground (arith, i) }
        | inr (inl (t, i)) ↦ record { ledger = ground (arith, i); items = ground (arith, i) }
        | inr (inr i) ↦ record { ledger = ground (arith, i); items = ground (arith, i) }
      ]

  mark_funding-Aside :
      (now id : ℕ) (dto : ProcessPayrollBatchDto) (e : Exception) (db : PayrollDb S)
      → Aside db (mark_batch_funding_failed S now id dto e db)
  unfolding mark_batch_funding_failed fail_batch enqueue_payroll_event
  mark_funding-Aside now id dto e db = elim (Option-cases (B.find id db.batches)) [
    | inl f ↦ record { ledger = ground (arith, f); items = ground (arith, f) }
    | inr (b, f) ↦ elim (Bool-cases (is_draft b.status)) [
      | inl p ↦ record { ledger = ground (arith, f, p); items = ground (arith, f, p) }
      | inr p ↦ record { ledger = ground (arith, f, p); items = ground (arith, f, p) }
    ]
  ]

  finalize_locked-held :
      (now : ℕ) (dto : ProcessPayrollBatchDto) (b : PayrollBatch) (is : List PayrollItem)
      (db : PayrollDb S)
      → held S c ks d (finalize_locked S now dto b is db) ≡ held S c ks d db
  unfolding finalize_locked fail_batch complete_batch enqueue_payroll_event
  finalize_locked-held now dto b is db = ground arith

  pub finalize-held :
      (now id : ℕ) (dto : ProcessPayrollBatchDto) (db : PayrollDb S)
      → held S c ks d (finalize_payroll_batch_after_disbursement S now id dto db) ≡ held S c ks d db
  unfolding finalize_payroll_batch_after_disbursement
  finalize-held now id dto db = elim (Option-cases (B.find id db.batches)) [
    | inl f ↦ ground (arith, f)
    | inr (b, f) ↦
        let same = finalize_locked-held now dto b (S.find_by_batch id db.items) db in
        elim (Bool-cases (is_disbursing b.status)) [
          | inl p ↦ ground (arith, f, p, same)
          | inr p ↦ ground (arith, f, p)
        ]
  ]

  -- A step that keeps the money and the items.
  pub record Funded (db db' : PayrollDb S) : Type 0 where
    pub money : held S c ks d db' ≡ held S c ks d db
    pub items : db'.items ≡ db.items

  pub Funded-refl : (db : PayrollDb S) → Funded db db
  Funded-refl db = record { money = refl; items = refl }

  pub Aside-Funded : (db db₁ db₂ : PayrollDb S) → Aside db₁ db₂ → Funded db db₁ → Funded db db₂
  Aside-Funded db db₁ db₂ x y = record {
    money = ap (total L.accounts c ks) x.ledger ∙ y.money;
    items = x.items ∙ y.items;
  }

  post_funding-Funded :
      (now : ℕ) (dto : ProcessPayrollBatchDto) (locked : PayrollBatch)
      (r : Option PayrollFundingReservation) (clearing : ℕ) (db : PayrollDb S) {u : Unit {0}}
      {db' : PayrollDb S}
      → elem clearing ks ≡ true
      → elem locked.employer_account_id ks ≡ true
      → post_funding S now dto locked r clearing db ≡ (ok u, db')
      → Funded db db'
  unfolding post_funding funding_dto enqueue_payroll_event
  post_funding-Funded now dto locked r clearing db {u} {db'} p q h =
      let post = funding_dto (S.uuid_text locked.id) dto locked clearing in
      let done = post_with_shared_manager L now post (trim post.correlation_id) db.ledger in
      elim (Result-cases done.0) [
        | inr (e, x) ↦ absurd (ground (arith, x, h))
        | inl (y, x) ↦
            let db₁ : PayrollDb S = record db { ledger = done.1 } in
            let paid =
              post-total L c ks now post (trim post.correlation_id) db.ledger {r = y} {db' = done.1}
                d (rw (q, p) refl) (ground (arith, x)) in
            let saving = save_reservation S locked y.header.id r db₁ in
            elim (Result-cases saving.0) [
              | inr (e, z) ↦ absurd (ground (arith, x, z, h))
              | inl (saved, z) ↦
                  let aside = save_reservation-Aside locked y.header.id r db₁ in
                  let aside' = update_batch_status-Aside locked.id funding_reserved saving.1 in
                  let all : Funded db (update_batch_status S locked.id funding_reserved saving.1) =
                    Aside-Funded db saving.1
                      (update_batch_status S locked.id funding_reserved saving.1) aside'
                      (Aside-Funded db db₁ saving.1 aside
                        (record { money = paid; items = refl })) in
                  let money = all.money in
                  let items = all.items in
                  record {
                    money = ground (arith, x, z, h, money);
                    items = ground (arith, x, z, h, items);
                  }
            ]
      ]

  -- Every employer of a batch is among the accounts.
  abbrev pub Employers : PayrollDb S → Type 0
  Employers db =
      (k : ℕ) (b : PayrollBatch)
      → B.find k db.batches ≡ some b
      → elem b.employer_account_id ks ≡ true

  reserve_in_transaction-Funded :
      (now : ℕ) (dto : ProcessPayrollBatchDto) (id clearing : ℕ) (db : PayrollDb S) {u : Unit {0}}
      {db' : PayrollDb S}
      → elem clearing ks ≡ true
      → Employers db
      → reserve_in_transaction S now dto id clearing db ≡ (ok u, db')
      → Funded db db'
  unfolding reserve_in_transaction
  reserve_in_transaction-Funded now dto id clearing db {u} {db'} p q h =
      elim (Option-cases (B.find id db.batches)) [
        | inl f ↦ absurd (ground (arith, f, h))
        | inr (b, f) ↦
            let r = S.find_reservation id db.reservations in
            let updated = update_batch_status S id funding_reserved db in
            elim (Bool-cases (is_draft b.status)) [
              | inr n ↦ subst (Funded db) (ground (arith, f, n, h)) (Funded-refl db)
              | inl n ↦ elim (Bool-cases (already_posted r)) [
                | inl x ↦ subst (Funded db) (ground (arith, f, n, x, h)) (
                    Aside-Funded db db updated (update_batch_status-Aside id funding_reserved db)
                      (Funded-refl db))
                | inr x ↦
                    post_funding-Funded now dto b r clearing db {u = u} {db' = db'} p (q id b f)
                      (ground (arith, f, n, x, h))
              ]
            ]
      ]

  -- Whether it returns or throws: the transaction rolls back.
  reserve_employer_funds-Funded :
      (now : ℕ) (dto : ProcessPayrollBatchDto) (b : PayrollBatch) (db : PayrollDb S)
      → Employers db
      → Funded db (reserve_employer_funds S now dto b db).1
  unfolding reserve_employer_funds clearing_account_id
  reserve_employer_funds-Funded now dto b db q =
      elim (Result-cases (clearing_account_id S b.currency)) [
        | inr (e, f) ↦ subst (Funded db) (ground (arith, f)) (Funded-refl db)
        | inl (a, f) ↦
            let body = reserve_in_transaction S now dto b.id a db in
            elim (Result-cases body.0) [
              | inr (e, x) ↦ subst (Funded db) (ground (arith, f, x)) (Funded-refl db)
              | inl (u, x) ↦ subst (Funded db) (ground (arith, f, x)) (
                  reserve_in_transaction-Funded now dto b.id a db {u = u} {db' = body.1}
                    (house b.currency a (or_throw-eq-ok (S.clearing b.currency) _ f)) q
                    (ground (arith, x)))
            ]
      ]

  fund_draft-Funded :
      (now : ℕ) (dto : ProcessPayrollBatchDto) (b : PayrollBatch) (is : List PayrollItem)
      (db : PayrollDb S)
      → Employers db
      → Funded db (fund_draft S now dto b is db).1
  unfolding fund_draft
  fund_draft-Funded now dto b is db q =
      elim (Result-cases (assert_batch_ready_for_processing b is)) [
        | inr (e, f) ↦ subst (Funded db) (ground (arith, f)) (Funded-refl db)
        | inl (u, f) ↦
            let run = reserve_employer_funds S now dto b db in
            let funded = reserve_employer_funds-Funded now dto b db q in
            elim (Result-cases run.0) [
              | inr (e, x) ↦ subst (Funded db) (ground (arith, f, x)) (
                  Aside-Funded db run.1 (mark_batch_funding_failed S now b.id dto e run.1)
                    (mark_funding-Aside now b.id dto e run.1) funded)
              | inl (v, x) ↦ subst (Funded db) (ground (arith, f, x)) (
                  Aside-Funded db run.1 (update_batch_status S b.id disbursing run.1)
                    (update_batch_status-Aside b.id disbursing run.1) funded)
            ]
      ]

  pub prepare-Funded :
      (now : ℕ) (dto : ProcessPayrollBatchDto) (b : PayrollBatch) (s : PayrollBatchStatus)
      (db : PayrollDb S)
      → Employers db
      → Funded db (prepare S now dto b s db).1
  unfolding prepare
  prepare-Funded now dto b draft db q =
      fund_draft-Funded now dto b (S.find_by_batch b.id db.items) db q
  prepare-Funded now dto b funding_reserved db q =
      elim (Bool-cases (is_posted_row (S.find_reservation b.id db.reservations))) [
        | inr n ↦ subst (Funded db) (ground (arith, n)) (Funded-refl db)
        | inl n ↦ subst (Funded db) (ground (arith, n)) (
            Aside-Funded db db (update_batch_status S b.id disbursing db)
              (update_batch_status-Aside b.id disbursing db) (Funded-refl db))
      ]
  prepare-Funded now dto b disbursing db q = Funded-refl db
  prepare-Funded now dto b completed db q = Funded-refl db
  prepare-Funded now dto b failed db q = Funded-refl db
  prepare-Funded now dto b cancelled db q = Funded-refl db
