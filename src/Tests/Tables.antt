-- ===== src/Tests/Tables.antt =====
-- Tables as lists of rows, newest first, and a small bank.
use fintech_nova_pay.Common.{
  ℕ, suc, ◌+◌, ◌<◌, ◌==◌, ◌≡◌, refl, Bool, false, ◌||◌, Option, none, some, List, [], ◌∷◌, map,
  length, if◌then◌else◌, Bool-cases, inl, inr, All, arith,
}
use fintech_nova_pay.Common.Int.{ℤ}
use fintech_nova_pay.Common.Result.{ok}
use fintech_nova_pay.Common.Dict.{elem, is_some}
use fintech_nova_pay.Common.Table.{Table}
use fintech_nova_pay.Common.Text.{Text, same_text}
use fintech_nova_pay.Common.Text.Laws.{same_text_self}
use fintech_nova_pay.Decimal.{parse_scaled_decimal}
use fintech_nova_pay.Accounts.Entity.{Account, account_key, usd, active}
use fintech_nova_pay.Outbox.Enqueue.{EventIds, event_id}
use fintech_nova_pay.Ledger.Entity.{LedgerTransaction}
use fintech_nova_pay.Ledger.Store.{
  NewTransaction, with_id, TransactionTable, LedgerStore, Db, Inserted, stored, duplicate,
}
use fintech_nova_pay.Ledger.Atomicity.{Readable}

-- Accounts.
unfoldable pub find_account : ℕ → List Account → Option Account
find_account k [] = none
find_account k (a ∷ t) = if a.id == k then some a else find_account k t

pub find_account-key :
    (k : ℕ) (t : List Account) {a : Account} → find_account k t ≡ some a → a.id ≡ k
unfolding find_account
find_account-key k [] h = absurd (ground arith)
find_account-key k (b ∷ t) {a} h = elim (Bool-cases (b.id == k)) [
  | inl e ↦ ground (arith, e, h)
  | inr e ↦ find_account-key k t {a = a} (ground (arith, e, h))
]

pub find_account-save :
    (k : ℕ) (r : Account) (t : List Account)
    → find_account k (r ∷ t) ≡ (if r.id == k then some r else find_account k t)
unfolding find_account
find_account-save k r t = refl

abbrev pub account_table : Table Account account_key
account_table = record {
  Rows = List Account;
  find = find_account;
  save = λ a t. a ∷ t;
  find-save = find_account-save;
  find-key = find_account-key;
}

pub Readable-rows :
    (t : List Account)
    → All (λ a. (b : ℤ) × (parse_scaled_decimal a.balance ≡ ok b)) t
    → Readable account_table t
unfolding find_account
Readable-rows [] x k a h = absurd (ground arith)
Readable-rows (b ∷ t) (x, xs) k a h = elim (Bool-cases (b.id == k)) [
  | inl e ↦ let same : b ≡ a = ground (arith, e, h) in rw (← same) x
  | inr e ↦ Readable-rows t xs k a (ground (arith, e, h))
]

-- Events: one more than the sum of the identifiers is free.
unfoldable pub sum : List ℕ → ℕ
sum [] = 0
sum (k ∷ ks) = k + sum ks

pub sum-free : (k : ℕ) (ks : List ℕ) → sum ks < k → elem k ks ≡ false
unfolding sum
sum-free k [] h = refl
sum-free k (j ∷ ks) h = let rest = sum-free k ks (omega (arith, h)) in ground (arith, rest, h)

abbrev pub event_ids : EventIds
event_ids = record {
  new_id = λ es. suc (sum (map event_id es));
  new_id-fresh = λ es. sum-free (suc (sum (map event_id es))) (map event_id es) (omega arith);
}

-- Transactions.
unfoldable pub find_tx :
    (LedgerTransaction → Bool) → List LedgerTransaction → Option LedgerTransaction
find_tx p [] = none
find_tx p (x ∷ t) = if p x then some x else find_tx p t

abbrev pub is_reversal_of : ℕ → LedgerTransaction → Bool
is_reversal_of i x = elim x.reverses_transaction_id [ none ↦ false | some j ↦ j == i ]

unfoldable pub taken : NewTransaction → List LedgerTransaction → Bool
taken n t =
    is_some (find_tx (λ x. same_text x.correlation_id n.correlation_id) t)
    || elim n.reverses_transaction_id [
      | none ↦ false
      | some i ↦ is_some (find_tx (is_reversal_of i) t)
    ]

unfoldable pub insert_tx :
    NewTransaction → List LedgerTransaction → Inserted (List LedgerTransaction)
insert_tx n t =
    if taken n t then duplicate t else stored (suc (length t)) (with_id (suc (length t)) n ∷ t)

pub find_tx-id :
    (i : ℕ) (t : List LedgerTransaction) {x : LedgerTransaction}
    → find_tx (λ y. y.id == i) t ≡ some x
    → x.id ≡ i
unfolding find_tx
find_tx-id i [] h = absurd (ground arith)
find_tx-id i (y ∷ t) {x} h = elim (Bool-cases (y.id == i)) [
  | inl e ↦ ground (arith, e, h)
  | inr e ↦ find_tx-id i t {x = x} (ground (arith, e, h))
]

pub insert_tx-find :
    (n : NewTransaction) (t : List LedgerTransaction) {i : ℕ} {t' : List LedgerTransaction}
    → insert_tx n t ≡ stored i t'
    → find_tx (λ y. y.id == i) t' ≡ some (with_id i n)
unfolding insert_tx find_tx
insert_tx-find n t h = elim (Bool-cases (taken n t)) [
  | inl e ↦ absurd (ground (arith, e, h))
  | inr e ↦ ground (arith, e, h)
]

pub insert_tx-find_by_correlation :
    (n : NewTransaction) (t : List LedgerTransaction) {i : ℕ} {t' : List LedgerTransaction}
    → insert_tx n t ≡ stored i t'
    → find_tx (λ y. same_text y.correlation_id n.correlation_id) t' ≡ some (with_id i n)
unfolding insert_tx find_tx
insert_tx-find_by_correlation n t h = elim (Bool-cases (taken n t)) [
  | inl e ↦ absurd (ground (arith, e, h))
  | inr e ↦ ground (arith, e, h, same_text_self n.correlation_id)
]

abbrev pub transaction_table : TransactionTable
transaction_table = record {
  Rows = List LedgerTransaction;
  find = λ i. find_tx (λ x. x.id == i);
  find_by_correlation = λ c. find_tx (λ x. same_text x.correlation_id c);
  find_reversal = λ i. find_tx (is_reversal_of i);
  insert = insert_tx;
  find-id = find_tx-id;
  insert-find = insert_tx-find;
  insert-find_by_correlation = insert_tx-find_by_correlation;
}

abbrev pub ledger_store : LedgerStore
ledger_store = record {
  accounts = account_table;
  transactions = transaction_table;
  events = event_ids;
}

abbrev pub wallet : ℕ → ℕ → Text → Account
wallet id user balance = record {
  id = id;
  user_id = user;
  account_number = id ∷ [];
  currency = usd;
  balance = balance;
  available_balance = balance;
  status = active;
  overdraft_limit = b'0' ∷ [];
}

-- 100.0000 and 5.0000
abbrev pub ledger_db : Db ledger_store
ledger_db = record {
  accounts =
      wallet 1 10 (b'1' ∷ b'0' ∷ b'0' ∷ b'.' ∷ b'0' ∷ b'0' ∷ b'0' ∷ b'0' ∷ [])
      ∷ wallet 2 20 (b'5' ∷ b'.' ∷ b'0' ∷ b'0' ∷ b'0' ∷ b'0' ∷ [])
      ∷ [];
  transactions = [];
  entries = [];
  outbox = [];
}
