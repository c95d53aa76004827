-- ===== src/Ledger/Outcome.antt =====
-- How a posting that returns ends, whatever path it takes.
use fintech_nova_pay.Common.{
  ℕ, ◌≡◌, some, sym, ap, ◌∙◌, ◌⊎◌, inl, inr, true, List, ◌++◌, Bool-cases, Option-cases, all, arith,
}
use fintech_nova_pay.Common.Result.{ok, Result-cases, >>=-eq-ok}
use fintech_nova_pay.Common.Dict.{elem}
use fintech_nova_pay.Common.Text.{Text, is_empty}
use fintech_nova_pay.Accounts.Entity.{Currency}
use fintech_nova_pay.Outbox.Enqueue.{enqueue_in_transaction}
use fintech_nova_pay.Ledger.Entity.{LedgerTransaction, PostLedgerTransactionDto}
use fintech_nova_pay.Ledger.Lines.{assert_balanced_per_currency, assign_line_numbers, distinct}
use fintech_nova_pay.Ledger.Projection.{ProjectionLine, apply_ledger_posting_projections}
use fintech_nova_pay.Ledger.Store.{LedgerStore, Db, Posted, Inserted-cases, stored, duplicate}
use fintech_nova_pay.Ledger.Posting.{
  line_rows, projection_lines, assert_reversal_metadata, assert_reversal_target_posted,
  validate_account_balances_before_ledger_insert, replay_winner, reload, check_posting, new_header,
  ledger_event, write_lines, insert_header, post_new, post_with_shared_manager,
}
use fintech_nova_pay.Ledger.Conservation.{total, projections-total}

module _ (S : LedgerStore) where
  open S use {transactions as T, accounts as A, events as I}

  -- The accounts, the lines and the outbox are as they were; nothing is said of the headers.
  pub record Untouched (db db' : Db S) : Type 0 where
    pub accounts : db'.accounts ≡ db.accounts
    pub entries : db'.entries ≡ db.entries
    pub outbox : db'.outbox ≡ db.outbox

  -- The posting returned an earlier one and wrote nothing: its correlation had a header, or the
  -- insert of its header met one, and the headers are those that are then visible.
  pub data Replayed (dto : PostLedgerTransactionDto) (corr : Text) (r : Posted) (db db' : Db S)
      : Type 0 where
    earlier :
        (x : LedgerTransaction)
        → T.find_by_correlation corr db.transactions ≡ some x
        → r ≡ reload S x db
        → db' ≡ db
        → Replayed dto corr r db db'
    raced :
        (t : T.Rows)
        → T.insert (new_header S dto corr) db.transactions ≡ duplicate t
        → replay_winner S dto corr (record db { transactions = t }) ≡ (ok r, db')
        → db' ≡ record db { transactions = t }
        → Replayed dto corr r db db'

  Replayed-accounts :
      {dto : PostLedgerTransactionDto} {corr : Text} {r : Posted} {db db' : Db S}
      → Replayed dto corr r db db'
      → db'.accounts ≡ db.accounts
  Replayed-accounts (earlier x f q e) = ap (λ d. d.accounts) e
  Replayed-accounts (raced t i w e) = ap (λ d. d.accounts) e

  pub record Written (now : ℕ) (dto : PostLedgerTransactionDto) (corr : Text) (db db' : Db S)
      : Type 0 where
    pub tx : ℕ
    pub line_numbers : List ℕ
    pub lines : List ProjectionLine
    pub metadata : assert_reversal_metadata dto ≡ ok tt
    pub target : assert_reversal_target_posted S dto db ≡ ok tt
    pub balanced : assert_balanced_per_currency dto.entries ≡ ok tt
    pub numbered : assign_line_numbers dto.entries ≡ ok line_numbers
    pub validated : validate_account_balances_before_ledger_insert S dto.entries db ≡ ok tt
    pub inserted : T.insert (new_header S dto corr) db.transactions ≡ stored tx db'.transactions
    pub read : projection_lines dto.entries ≡ ok lines
    pub projected : apply_ledger_posting_projections A lines db.accounts ≡ ok db'.accounts
    pub entries : db'.entries ≡ db.entries ++ line_rows tx dto.entries line_numbers
    pub outbox :
        db'.outbox ≡ enqueue_in_transaction I now (ledger_event S now dto corr tx) db.outbox

  write_lines-Written :
      (now : ℕ) (dto : PostLedgerTransactionDto) (corr : Text) (ns : List ℕ) (tx : ℕ) (db : Db S)
      {r : Posted} {db' : Db S}
      → write_lines S now dto corr ns tx db ≡ (ok r, db')
      → (lines : List ProjectionLine) × (projection_lines dto.entries ≡ ok lines)
        × (apply_ledger_posting_projections A lines db.accounts ≡ ok db'.accounts)
        × (db'.entries ≡ db.entries ++ line_rows tx dto.entries ns)
        × (db'.outbox ≡ enqueue_in_transaction I now (ledger_event S now dto corr tx) db.outbox)
        × (db'.transactions ≡ db.transactions)
  unfolding write_lines
  write_lines-Written now dto corr ns tx db h = elim (Result-cases (projection_lines dto.entries)) [
    | inr (e, p) ↦ absurd (ground arith)
    | inl (lines, p) ↦ elim (Result-cases (apply_ledger_posting_projections A lines db.accounts)) [
      | inr (e, v) ↦ absurd (ground arith)
      | inl (accounts, v) ↦ (lines, p, ground arith, ground arith, ground arith, ground arith)
    ]
  ]

  pub replay_winner-Untouched :
      (dto : PostLedgerTransactionDto) (corr : Text) (db : Db S)
      → (replay_winner S dto corr db).1 ≡ db
  unfolding replay_winner
  replay_winner-Untouched dto corr db = ground arith

  -- What the insert of the header leads to.
  insert_header-cases :
      (now : ℕ) (dto : PostLedgerTransactionDto) (corr : Text) (ns : List ℕ) (db : Db S)
      {r : Posted} {db' : Db S}
      → insert_header S now dto corr ns db ≡ (ok r, db')
      → Replayed dto corr r db db'
        ⊎ ((tx : ℕ) × (t : T.Rows) × (T.insert (new_header S dto corr) db.transactions
              ≡ stored tx t)
            × (write_lines S now dto corr ns tx (record db { transactions = t }) ≡ (ok r, db')))
  unfolding insert_header
  insert_header-cases now dto corr ns db {r} {db'} h =
      elim (Inserted-cases (T.insert (new_header S dto corr) db.transactions)) [
        | inl (tx, t, e) ↦ inr (tx, t, e, ground arith)
        | inr (inl (t, e)) ↦
            let same = replay_winner-Untouched dto corr (record db { transactions = t }) in
            let won : replay_winner S dto corr (record db { transactions = t }) ≡ (ok r, db') =
              ground (arith, e, h) in
            inl (raced t e won (sym (ap (λ x. x.1) won) ∙ same))
        | inr (inr e) ↦ absurd (ground arith)
      ]

  pub record Checked (dto : PostLedgerTransactionDto) (db : Db S) (ns : List ℕ) : Type 0 where
    pub metadata : assert_reversal_metadata dto ≡ ok tt
    pub target : assert_reversal_target_posted S dto db ≡ ok tt
    pub balanced : assert_balanced_per_currency dto.entries ≡ ok tt
    pub numbered : assign_line_numbers dto.entries ≡ ok ns
    pub validated : validate_account_balances_before_ledger_insert S dto.entries db ≡ ok tt

  pub check_posting-Checked :
      (dto : PostLedgerTransactionDto) (db : Db S) {ns : List ℕ}
      → check_posting S dto db ≡ ok ns
      → Checked dto db ns
  unfolding check_posting
  check_posting-Checked dto db h =
      let (u₁, p₁, q₁) = >>=-eq-ok (assert_reversal_metadata dto) _ h in
      let (u₂, p₂, q₂) = >>=-eq-ok (assert_reversal_target_posted S dto db) _ q₁ in
      let (u₃, p₃, q₃) = >>=-eq-ok (assert_balanced_per_currency dto.entries) _ q₂ in
      let (ns, p₄, q₄) = >>=-eq-ok (assign_line_numbers dto.entries) _ q₃ in
      let (u₅, p₅, q₅) =
        >>=-eq-ok (validate_account_balances_before_ledger_insert S dto.entries db) _ q₄ in
      record { metadata = p₁; target = p₂; balanced = p₃; numbered = p₄ ∙ q₅; validated = p₅ }

  Written-parts :
      (now : ℕ) (dto : PostLedgerTransactionDto) (corr : Text) (ns : List ℕ) (tx : ℕ) (t : T.Rows)
      (db : Db S) {r : Posted} {db' : Db S}
      → Checked dto db ns
      → T.insert (new_header S dto corr) db.transactions ≡ stored tx t
      → write_lines S now dto corr ns tx (record db { transactions = t }) ≡ (ok r, db')
      → Written now dto corr db db'
  Written-parts now dto corr ns tx t db c i w =
      let (lines, p, a, e, o, x) =
        write_lines-Written now dto corr ns tx (record db { transactions = t }) w in
      record {
        tx = tx;
        line_numbers = ns;
        lines = lines;
        metadata = c.metadata;
        target = c.target;
        balanced = c.balanced;
        numbered = c.numbered;
        validated = c.validated;
        inserted = i ∙ ap (stored tx) (sym x);
        read = p;
        projected = a;
        entries = e;
        outbox = o;
      }

  post_new-cases :
      (now : ℕ) (dto : PostLedgerTransactionDto) (corr : Text) (db : Db S) {r : Posted} {db' : Db S}
      → post_new S now dto corr db ≡ (ok r, db')
      → Replayed dto corr r db db' ⊎ Written now dto corr db db'
  unfolding post_new
  post_new-cases now dto corr db {r} {db'} h = elim (Result-cases (check_posting S dto db)) [
    | inr (e, p) ↦ absurd (ground arith)
    | inl (ns, p) ↦
        elim (insert_header-cases now dto corr ns db {r = r} {db' = db'} (ground arith)) [
          | inl same ↦ inl same
          | inr (tx, t, i, w) ↦
              inr (Written-parts now dto corr ns tx t db (check_posting-Checked dto db p) i w)
        ]
  ]

  -- A posting that returns has found the header of an earlier one, at the look-up or when its insert
  -- violated a unique index, returned it and written nothing; or it has passed every check and written
  -- its header, its lines, the projections and one event.
  pub post-cases :
      (now : ℕ) (dto : PostLedgerTransactionDto) (corr : Text) (db : Db S) {r : Posted} {db' : Db S}
      → post_with_shared_manager S now dto corr db ≡ (ok r, db')
      → Replayed dto corr r db db' ⊎ Written now dto corr db db'
  unfolding post_with_shared_manager
  post-cases now dto corr db {r} {db'} h = elim (Bool-cases (is_empty corr)) [
    | inl e ↦ absurd (ground arith)
    | inr e ↦ elim (Option-cases (T.find_by_correlation corr db.transactions)) [
      | inl f ↦ post_new-cases now dto corr db {r = r} {db' = db'} (ground arith)
      | inr (x, f) ↦ inl (earlier x f (ground (arith, e, f, h)) (ground (arith, e, f, h)))
    ]
  ]

  -- Whatever a posting returns, the money of every currency that a set of accounts holds is the
  -- same before and after, if the set has the accounts of the lines.
  pub post-total :
      (c : Currency) (ks : List ℕ) (now : ℕ) (dto : PostLedgerTransactionDto) (corr : Text)
      (db : Db S) {r : Posted} {db' : Db S}
      → distinct ks ≡ true
      → all (λ e. elem e.account_id ks) dto.entries ≡ true
      → post_with_shared_manager S now dto corr db ≡ (ok r, db')
      → total A c ks db'.accounts ≡ total A c ks db.accounts
  post-total c ks now dto corr db {r} {db'} d cover h =
      elim (post-cases now dto corr db {r = r} {db' = db'} h) [
        | inl same ↦ ap (total A c ks) (Replayed-accounts same)
        | inr w ↦
            projections-total A c ks dto.entries db.accounts d cover w.balanced w.read w.projected
      ]
