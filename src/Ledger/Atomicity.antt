-- ===== src/Ledger/Atomicity.antt =====
-- Accounts, lines and outbox after a posting that throws.
use fintech_nova_pay.Common.{
  ℕ, ◌≡◌, refl, ◌∙◌, inl, inr, not, some, List, [], ◌∷◌, Bool-cases, Option-cases, arith,
}
use fintech_nova_pay.Common.Int.{ℤ, ◌+ℤ◌}
use fintech_nova_pay.Common.Result.{
  ok, err, Exception, Result-cases, >>=-eq-ok, throw_if, throw_if-eq-ok, or_throw, or_throw-eq-ok,
}
use fintech_nova_pay.Common.Dict.{lookup, keys, sort}
use fintech_nova_pay.Common.Table.{Table, save_all}
use fintech_nova_pay.Common.Text.{Text, is_empty}
use fintech_nova_pay.Accounts.Entity.{Account, account_key, is_active}
use fintech_nova_pay.Decimal.{
  parse_scaled_amount, parse_scaled_decimal, parse_scaled_balance_field, format_scaled_decimal,
}
use fintech_nova_pay.Ledger.Entity.{LedgerTransaction, PostLedgerTransactionDto}
use fintech_nova_pay.Ledger.Lines.{Line, Deltas, add_delta, net_lines, no_deltas, signed}
use fintech_nova_pay.Ledger.Projection.{
  ProjectionLine, is_expected, delta_of, project_account, validate_account, validate_all,
  project_all, apply_ledger_posting_projections,
}
use fintech_nova_pay.Ledger.Store.{LedgerStore, Db, Inserted-cases}
use fintech_nova_pay.Ledger.Posting.{
  projection_lines, load_tx_with_entries, check_posting,
  validate_account_balances_before_ledger_insert, new_header, write_lines, insert_header, post_new,
  post_with_shared_manager,
}
use fintech_nova_pay.Ledger.Conservation.{net_projection-net_lines}
use fintech_nova_pay.Ledger.Outcome.{Untouched, replay_winner-Untouched, check_posting-Checked}

pub parse_scaled_decimal-balance_field :
    (s : Text) {v : ℤ} → parse_scaled_balance_field s ≡ ok v → parse_scaled_decimal s ≡ ok v
unfolding parse_scaled_decimal parse_scaled_balance_field
parse_scaled_decimal-balance_field s h = ground arith

projection_lines_succeed :
    (es : List Line) (d : Deltas) {d' : Deltas}
    → net_lines es d ≡ ok d'
    → (ls : List ProjectionLine) × (projection_lines es ≡ ok ls)
unfolding net_lines projection_lines
projection_lines_succeed [] d h = ([], refl)
projection_lines_succeed (e ∷ es) d h =
    let (x, p, q) = >>=-eq-ok (parse_scaled_amount e.amount) _ h in
    let (d₁, r, s) = >>=-eq-ok (add_delta e.account_id e.currency (signed e.entry_type x) d) _ q in
    let (ls, v) = projection_lines_succeed es d₁ s in
    (
      record {
        account_id = e.account_id;
        currency = e.currency;
        scaled_signed_delta = signed e.entry_type x;
      }
          ∷ ls,
      rw (p, v),
    )

project_account_succeeds :
    (d : Deltas) (k : ℕ) (a : Account) {b : ℤ} {u : Unit {0}}
    → validate_account d k a ≡ ok u
    → parse_scaled_decimal a.balance ≡ ok b
    → (u : Account) × (project_account d k a ≡ ok u)
unfolding validate_account project_account
project_account_succeeds d k a {b} h r =
    let (u₁, p₁, q₁) = >>=-eq-ok (throw_if (not (is_active a.status)) _) _ h in
    let (u₂, p₂, q₂) =
      >>=-eq-ok (throw_if (not (is_expected (lookup k d.currency_by_account) a.currency)) _) _ q₁ in
    let (v, p₃, q₃) = >>=-eq-ok (parse_scaled_balance_field a.available_balance) _ q₂ in
    let (o, p₄, q₄) = >>=-eq-ok (parse_scaled_balance_field a.overdraft_limit) _ q₃ in
    (
      record a {
        balance = format_scaled_decimal (b +ℤ delta_of d k);
        available_balance = format_scaled_decimal (v +ℤ delta_of d k);
      },
      rw (
        throw_if-eq-ok _ _ p₂,
        r,
        parse_scaled_decimal-balance_field a.available_balance p₃,
        parse_scaled_decimal-balance_field a.overdraft_limit p₄,
        throw_if-eq-ok _ _ q₄,
      ),
    )

module _ (A : Table Account account_key) where
  open A use {Rows, find}

  -- The column's type is `decimal`, so every balance is the text of a number.
  abbrev pub Readable : Rows → Type 0
  Readable t =
      (k : ℕ) (a : Account) → find k t ≡ some a → (b : ℤ) × (parse_scaled_decimal a.balance ≡ ok b)

  project_all_succeeds :
      (d : Deltas) (ids : List ℕ) (t : Rows) {u : Unit {0}}
      → Readable t
      → validate_all A d ids t ≡ ok u
      → (us : List Account) × (project_all A d ids t ≡ ok us)
  unfolding validate_all project_all
  project_all_succeeds d [] t r h = ([], refl)
  project_all_succeeds d (i ∷ ids) t r h =
      let (a, p, q) = >>=-eq-ok (or_throw (find i t) _) _ h in
      let (u, v, w) = >>=-eq-ok (validate_account d i a) _ q in
      let there = or_throw-eq-ok (find i t) _ p in
      let (b, x) = r i a there in
      let (row, y) = project_account_succeeds d i a v x in
      let (us, z) = project_all_succeeds d ids t r w in (row ∷ us, rw (there, y, z))

module _ (S : LedgerStore) where
  open S use {transactions as T, accounts as A, events as I}

  projections_succeed :
      (es : List Line) (db : Db S) {u : Unit {0}}
      → Readable A db.accounts
      → validate_account_balances_before_ledger_insert S es db ≡ ok u
      → (ls : List ProjectionLine) × (t : A.Rows) × (projection_lines es ≡ ok ls)
        × (apply_ledger_posting_projections A ls db.accounts ≡ ok t)
  unfolding validate_account_balances_before_ledger_insert apply_ledger_posting_projections
  projections_succeed es db r h =
      let (d, p, q) = >>=-eq-ok (net_lines es no_deltas) _ h in
      let (ls, v) = projection_lines_succeed es no_deltas p in
      let (us, w) = project_all_succeeds A d (sort (keys d.delta_by_account)) db.accounts r q in
      (ls, save_all A us db.accounts, v, rw (net_projection-net_lines es no_deltas v ∙ p) (rw w))

  -- Once the checks have passed and the header is in, the rest returns.
  write_lines_returns :
      (now : ℕ) (dto : PostLedgerTransactionDto) (corr : Text) (ns : List ℕ) (tx : ℕ) (db : Db S)
      {x : LedgerTransaction} {u : Unit {0}} {e : Exception} {db' : Db S}
      → Readable A db.accounts
      → validate_account_balances_before_ledger_insert S dto.entries db ≡ ok u
      → T.find tx db.transactions ≡ some x
      → write_lines S now dto corr ns tx db ≡ (err e, db')
      → ⊥
  unfolding write_lines load_tx_with_entries
  write_lines_returns now dto corr ns tx db r v f h =
      let (ls, t, p, q) = projections_succeed dto.entries db r v in ground (arith, p, q, f, h)

  insert_header_err :
      (now : ℕ) (dto : PostLedgerTransactionDto) (corr : Text) (ns : List ℕ) (db : Db S)
      {u : Unit {0}} {e : Exception} {db' : Db S}
      → Readable A db.accounts
      → validate_account_balances_before_ledger_insert S dto.entries db ≡ ok u
      → insert_header S now dto corr ns db ≡ (err e, db')
      → Untouched S db db'
  unfolding insert_header validate_account_balances_before_ledger_insert
  insert_header_err now dto corr ns db {e = e} {db' = db'} r v h =
      elim (Inserted-cases (T.insert (new_header S dto corr) db.transactions)) [
        | inl (tx, t, i) ↦ absurd (
            write_lines_returns now dto corr ns tx (record db { transactions = t }) {e = e}
              {db' = db'} r v (T.insert-find (new_header S dto corr) db.transactions i)
              (ground (arith, i, h)))
        | inr (inl (t, i)) ↦
            let same = replay_winner-Untouched S dto corr (record db { transactions = t }) in
            ground (arith, same, i, h)
        | inr (inr i) ↦ ground (arith, i, h)
      ]

  post_new_err :
      (now : ℕ) (dto : PostLedgerTransactionDto) (corr : Text) (db : Db S) {e : Exception}
      {db' : Db S}
      → Readable A db.accounts
      → post_new S now dto corr db ≡ (err e, db')
      → Untouched S db db'
  unfolding post_new
  post_new_err now dto corr db {e} {db'} r h = elim (Result-cases (check_posting S dto db)) [
    | inr (x, p) ↦ ground (arith, p, h)
    | inl (ns, p) ↦
        insert_header_err now dto corr ns db {e = e} {db' = db'} r
          (check_posting-Checked S dto db p).validated (ground (arith, p, h))
  ]

  -- A posting that throws leaves the accounts, the lines and the outbox as they were, if every
  -- stored balance is the text of a number.
  pub post_err-Untouched :
      (now : ℕ) (dto : PostLedgerTransactionDto) (corr : Text) (db : Db S) {e : Exception}
      {db' : Db S}
      → Readable A db.accounts
      → post_with_shared_manager S now dto corr db ≡ (err e, db')
      → Untouched S db db'
  unfolding post_with_shared_manager
  post_err-Untouched now dto corr db {e} {db'} r h = elim (Bool-cases (is_empty corr)) [
    | inl x ↦ ground (arith, x, h)
    | inr x ↦ elim (Option-cases (T.find_by_correlation corr db.transactions)) [
      | inl f ↦ post_new_err now dto corr db {e = e} {db' = db'} r (ground (arith, x, f, h))
      | inr (y, f) ↦ absurd (ground (arith, x, f, h))
    ]
  ]
