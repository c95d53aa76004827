-- ===== src/Ledger/Replay.antt =====
-- A posting under a correlation that has been used.
use fintech_nova_pay.Common.{ℕ, ◌≡◌, inl, inr, false, none, some, List, Bool-cases, arith}
use fintech_nova_pay.Common.Result.{ok, Result-cases}
use fintech_nova_pay.Common.Text.{Text, is_empty}
use fintech_nova_pay.Ledger.Entity.{LedgerTransaction, PostLedgerTransactionDto}
use fintech_nova_pay.Ledger.Projection.{apply_ledger_posting_projections}
use fintech_nova_pay.Ledger.Store.{LedgerStore, Db, Posted, with_id, stored}
use fintech_nova_pay.Ledger.Posting.{
  projection_lines, load_tx_with_entries, reload, check_posting, new_header, write_lines,
  insert_header, post_new, post_with_shared_manager,
}

module _ (S : LedgerStore) where
  open S use {transactions as T, accounts as A}

  write_lines-loaded :
      (now : ℕ) (dto : PostLedgerTransactionDto) (corr : Text) (ns : List ℕ) (tx : ℕ) (db : Db S)
      {r : Posted} {db' : Db S}
      → write_lines S now dto corr ns tx db ≡ (ok r, db')
      → (load_tx_with_entries S tx db' ≡ some r) × (db'.transactions ≡ db.transactions)
  unfolding write_lines
  write_lines-loaded now dto corr ns tx db h = elim (Result-cases (projection_lines dto.entries)) [
    | inr (e, p) ↦ absurd (ground arith)
    | inl (lines, p) ↦ elim (Result-cases (apply_ledger_posting_projections A lines db.accounts)) [
      | inr (e, v) ↦ absurd (ground arith)
      | inl (accounts, v) ↦ (ground (arith, h, p, v), ground (arith, h, p, v))
    ]
  ]

  post_new-loaded :
      (now : ℕ) (dto : PostLedgerTransactionDto) (corr : Text) (db : Db S) {tx : ℕ} {t : T.Rows}
      {r : Posted} {db' : Db S}
      → T.insert (new_header S dto corr) db.transactions ≡ stored tx t
      → post_new S now dto corr db ≡ (ok r, db')
      → (load_tx_with_entries S tx db' ≡ some r) × (db'.transactions ≡ t)
  unfolding post_new insert_header
  post_new-loaded now dto corr db {tx} {t} {r} {db'} i h =
      elim (Result-cases (check_posting S dto db)) [
        | inr (e, p) ↦ absurd (ground (arith, p, h))
        | inl (ns, p) ↦
            write_lines-loaded now dto corr ns tx (record db { transactions = t }) {r = r}
              {db' = db'} (ground (arith, p, i, h))
      ]

  replayed :
      (now : ℕ) (dto : PostLedgerTransactionDto) (corr : Text) (db : Db S) (x : LedgerTransaction)
      {r : Posted}
      → is_empty corr ≡ false
      → T.find_by_correlation corr db.transactions ≡ some x
      → load_tx_with_entries S x.id db ≡ some r
      → post_with_shared_manager S now dto corr db ≡ (ok r, db)
  unfolding post_with_shared_manager reload
  replayed now dto corr db x n f l = ground (arith, n, f, l)

  -- A correlation posts once: after a posting that inserted its header, any posting under the same
  -- correlation returns what the first one returned and changes nothing.
  pub post-replay :
      (now : ℕ) (dto : PostLedgerTransactionDto) (corr : Text) (db : Db S) {tx : ℕ} {t : T.Rows}
      {r : Posted} {db' : Db S}
      → T.find_by_correlation corr db.transactions ≡ none
      → T.insert (new_header S dto corr) db.transactions ≡ stored tx t
      → post_with_shared_manager S now dto corr db ≡ (ok r, db')
      → (now' : ℕ) (dto' : PostLedgerTransactionDto)
      → post_with_shared_manager S now' dto' corr db' ≡ (ok r, db')
  unfolding post_with_shared_manager
  post-replay now dto corr db {tx} {t} {r} {db'} f i h now' dto' =
      elim (Bool-cases (is_empty corr)) [
        | inl n ↦ absurd (ground (arith, n, h))
        | inr n ↦
            let (l, e) =
              post_new-loaded now dto corr db {r = r} {db' = db'} i (ground (arith, n, f, h)) in
            replayed now' dto' corr db' (with_id tx (new_header S dto corr)) n
              (rw e (T.insert-find_by_correlation (new_header S dto corr) db.transactions i)) l
      ]
