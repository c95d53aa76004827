-- ===== src/Ledger/Store.antt =====
-- What the posting keeps, and the database behind it.
use fintech_nova_pay.Common.{ℕ, ◌≡◌, refl, ◌⊎◌, inl, inr, Option, some, List}
use fintech_nova_pay.Common.Text.{Text}
use fintech_nova_pay.Common.Table.{Table}
use fintech_nova_pay.Accounts.Entity.{Account, account_key}
use fintech_nova_pay.Outbox.Entity.{OutboxEvent}
use fintech_nova_pay.Outbox.Enqueue.{EventIds}
use fintech_nova_pay.Ledger.Entity.{
  LedgerTransaction, LedgerTransactionType, LedgerTransactionStatus, LedgerEntry,
}

-- What `manager.create(LedgerTransaction, …)` is given: a header without its identifier.
pub record NewTransaction : Type 0 where
  pub type : LedgerTransactionType
  pub status : LedgerTransactionStatus
  pub reverses_transaction_id : Option ℕ
  pub correlation_id : Text
  pub memo : Option Text

abbrev pub with_id : ℕ → NewTransaction → LedgerTransaction
with_id i n = record {
  id = i;
  type = n.type;
  status = n.status;
  reverses_transaction_id = n.reverses_transaction_id;
  correlation_id = n.correlation_id;
  memo = n.memo;
}

-- How an insert ends: with the identifier that the database gave, with a unique violation (23505)
-- and the rows as they are seen then, or with any other failed query.
pub data Inserted (Rows : Type 0) : Type 0 where
  stored : ℕ → Rows → Inserted Rows
  duplicate : Rows → Inserted Rows
  broken : Inserted Rows

-- `ledger_transactions`: unique by identifier and by correlation, with one reversal at most for
-- each original.
pub record TransactionTable : Type 1 where
  pub Rows : Type 0
  pub find : ℕ → Rows → Option LedgerTransaction
  pub find_by_correlation : Text → Rows → Option LedgerTransaction
  pub find_reversal : ℕ → Rows → Option LedgerTransaction
  pub insert : NewTransaction → Rows → Inserted Rows
  pub find-id : (i : ℕ) (t : Rows) {x : LedgerTransaction} → find i t ≡ some x → x.id ≡ i
  pub insert-find :
      (n : NewTransaction) (t : Rows) {i : ℕ} {t' : Rows}
      → insert n t ≡ stored i t'
      → find i t' ≡ some (with_id i n)
  pub insert-find_by_correlation :
      (n : NewTransaction) (t : Rows) {i : ℕ} {t' : Rows}
      → insert n t ≡ stored i t'
      → find_by_correlation n.correlation_id t' ≡ some (with_id i n)

pub record LedgerStore : Type 1 where
  pub accounts : Table Account account_key
  pub transactions : TransactionTable
  pub events : EventIds

pub record LedgerDb (Accounts Transactions : Type 0) : Type 0 where
  pub accounts : Accounts
  pub transactions : Transactions
  pub entries : List LedgerEntry
  pub outbox : List OutboxEvent

abbrev pub Db : LedgerStore → Type 0
Db S = LedgerDb S.accounts.Rows S.transactions.Rows

-- A header as a query returns it, with its lines if they were joined.
pub record Posted : Type 0 where
  pub header : LedgerTransaction
  pub entries : Option (List LedgerEntry)

pub Inserted-cases :
    {R : Type 0} (x : Inserted R)
    → ((i : ℕ) × (r : R) × (x ≡ stored i r)) ⊎ (((r : R) × (x ≡ duplicate r)) ⊎ (x ≡ broken))
Inserted-cases (stored i r) = inl (i, r, refl)
Inserted-cases (duplicate r) = inr (inl (r, refl))
Inserted-cases broken = inr (inr refl)
