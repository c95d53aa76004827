-- ===== src/Ledger/Posting.antt =====
-- `PostingService` of modules/ledger/service/posting.service.ts. The database state is passed
-- through, and comes back after a throw as it was written up to there.
use fintech_nova_pay.Common.{
  ℕ, ◌==◌, leb, not, Option, none, some, List, [], ◌∷◌, ◌++◌, if◌then◌else◌,
}
use fintech_nova_pay.Common.Result.{
  Result, ok, err, Exception, bad_request, not_found, query_failed, throw_if,
}
use fintech_nova_pay.Common.Result
use fintech_nova_pay.Common.Action.{Action, ◌>>=◌, ◌>>◌, throw, lift, modify, transaction}
use fintech_nova_pay.Common.Dict.{keys, sort, is_some}
use fintech_nova_pay.Common.Text.{Text, trim, is_empty}
use fintech_nova_pay.Outbox.Entity.{
  ledger_transaction_posted, ledger_transaction_reversed, Value, NewOutboxEventRow,
}
use fintech_nova_pay.Outbox.Enqueue.{enqueue_in_transaction}
use fintech_nova_pay.Decimal.{parse_scaled_amount}
use fintech_nova_pay.Ledger.Entity.{
  LedgerEntry, LedgerTransaction, posted, is_reversal, is_posted, type_name,
  PostLedgerTransactionDto,
}
use fintech_nova_pay.Ledger.Lines.{
  Line, signed, net_lines, no_deltas, assert_balanced_per_currency, assign_line_numbers,
}
use fintech_nova_pay.Ledger.Projection.{
  ProjectionLine, validate_all, apply_ledger_posting_projections,
}
use fintech_nova_pay.Ledger.Store.{
  LedgerStore, Db, Posted, NewTransaction, stored, duplicate, broken,
}

unfoldable pub assert_reversal_metadata : PostLedgerTransactionDto → Result (Unit {0})
assert_reversal_metadata dto =
    if is_reversal dto.type
    then throw_if (not (is_some dto.reverses_transaction_id))
        (bad_request "reversesTransactionId is required when type is REVERSAL")
    else throw_if (is_some dto.reverses_transaction_id)
        (bad_request "reversesTransactionId is only allowed when type is REVERSAL")

-- `entries.map((e, i) => ({ …, lineNumber: lineNumbers[i]! }))`
unfoldable pub line_rows : ℕ → List Line → List ℕ → List LedgerEntry
line_rows tx [] ns = []
line_rows tx (e ∷ es) [] = []
line_rows tx (e ∷ es) (n ∷ ns) =
    record {
      ledger_transaction_id = tx;
      account_id = e.account_id;
      entry_type = e.entry_type;
      amount = e.amount;
      currency = e.currency;
      line_number = n;
      memo = e.memo;
    }
    ∷ line_rows tx es ns

unfoldable pub projection_lines : List Line → Result (List ProjectionLine)
projection_lines [] = ok []
projection_lines (e ∷ es) = Result.◌>>=◌ (parse_scaled_amount e.amount) λ mag.
    Result.◌>>=◌ (projection_lines es) λ rest. ok (
      record {
        account_id = e.account_id;
        currency = e.currency;
        scaled_signed_delta = signed e.entry_type mag;
      }
      ∷ rest)

-- `ORDER BY line_number ASC`
unfoldable pub insert_by_line : LedgerEntry → List LedgerEntry → List LedgerEntry
insert_by_line x [] = x ∷ []
insert_by_line x (y ∷ ys) =
    if leb x.line_number y.line_number then x ∷ y ∷ ys else y ∷ insert_by_line x ys

unfoldable pub entries_of : ℕ → List LedgerEntry → List LedgerEntry
entries_of tx [] = []
entries_of tx (e ∷ es) =
    let rest = entries_of tx es in
    if e.ledger_transaction_id == tx then insert_by_line e rest else rest

abbrev pub id_or_null : Option ℕ → Value
id_or_null none = Value.null
id_or_null (some i) = Value.id i

module _ (S : LedgerStore) where
  open S use {transactions as T, accounts as A, events as I}

  unfoldable pub load_tx_with_entries : ℕ → Db S → Option Posted
  load_tx_with_entries i db = elim (T.find i db.transactions) [
    | none ↦ none
    | some tx ↦ some (record { header = tx; entries = some (entries_of i db.entries) })
  ]

  -- `full ?? row`
  unfoldable pub reload : LedgerTransaction → Db S → Posted
  reload tx db = elim (load_tx_with_entries tx.id db) [
    | none ↦ record { header = tx; entries = none }
    | some full ↦ full
  ]

  unfoldable pub assert_reversal_target_posted : PostLedgerTransactionDto → Db S → Result (Unit {0})
  assert_reversal_target_posted dto db = elim dto.reverses_transaction_id [
    | none ↦ ok tt
    | some original ↦
        if not (is_reversal dto.type) then ok tt else elim (T.find original db.transactions) [
          | none ↦ err (not_found "Reversal target transaction not found")
          | some target ↦
              if not (is_posted target.status)
              then err (bad_request "Reversal target must be in POSTED status")
              else if is_reversal target.type
              then err (
                  bad_request "Reversing a reversal is not supported here; use an explicit posting")
              else throw_if (is_some (T.find_reversal target.id db.transactions))
                  (bad_request "This ledger transaction has already been reversed")
        ]
  ]

  unfoldable pub validate_account_balances_before_ledger_insert :
      List Line → Db S → Result (Unit {0})
  validate_account_balances_before_ledger_insert entries db =
      Result.◌>>=◌ (net_lines entries no_deltas)
        λ d. validate_all A d (sort (keys d.delta_by_account)) db.accounts

  -- After a unique violation: the winner by correlation, else the reversal of the same original.
  unfoldable pub replay_winner : PostLedgerTransactionDto → Text → Action (Db S) Posted
  replay_winner dto correlation_id db =
      elim (T.find_by_correlation correlation_id db.transactions) [
        | some winner ↦ (ok (reload winner db), db)
        | none ↦ elim dto.reverses_transaction_id [
          | none ↦ (err query_failed, db)
          | some original ↦
              if is_reversal dto.type
              then elim (T.find_reversal original db.transactions) [
                | none ↦ (err query_failed, db)
                | some existing ↦ (ok (reload existing db), db)
              ]
              else (err query_failed, db)
        ]
      ]

  abbrev pub new_header : PostLedgerTransactionDto → Text → NewTransaction
  new_header dto correlation_id = record {
    type = dto.type;
    status = posted;
    reverses_transaction_id = dto.reverses_transaction_id;
    correlation_id = correlation_id;
    memo = dto.memo;
  }

  abbrev pub ledger_event : ℕ → PostLedgerTransactionDto → Text → ℕ → NewOutboxEventRow
  ledger_event now dto correlation_id tx = record {
    routing_key =
        if is_reversal dto.type then ledger_transaction_reversed else ledger_transaction_posted;
    payload =
        ("ledgerTransactionId", Value.id tx)
        ∷ ("correlationId", Value.text correlation_id)
        ∷ ("type", Value.word (type_name dto.type))
        ∷ ("reversesTransactionId", id_or_null dto.reverses_transaction_id)
        ∷ [];
    correlation_id = some correlation_id;
    occurred_at = now;
  }

  -- Everything after the header's insert.
  unfoldable pub write_lines :
      ℕ → PostLedgerTransactionDto → Text → List ℕ → ℕ → Action (Db S) Posted
  write_lines now dto correlation_id line_numbers tx = do
    modify λ db. record db { entries = db.entries ++ line_rows tx dto.entries line_numbers }
    lines ← lift (projection_lines dto.entries)
    accounts ← λ db. (apply_ledger_posting_projections A lines db.accounts, db)
    modify λ db. record db { accounts = accounts }
    modify λ db. record db {
      outbox = enqueue_in_transaction I now (ledger_event now dto correlation_id tx) db.outbox;
    }
    λ db. elim (load_tx_with_entries tx db) [
      | none ↦ (err (not_found "Posted transaction not found after save"), db)
      | some result ↦ (ok result, db)
    ]

  unfoldable pub insert_header : ℕ → PostLedgerTransactionDto → Text → List ℕ → Action (Db S) Posted
  insert_header now dto correlation_id line_numbers db =
      elim (T.insert (new_header dto correlation_id) db.transactions) [
        | stored tx t ↦
            write_lines now dto correlation_id line_numbers tx (record db { transactions = t })
        | duplicate t ↦ replay_winner dto correlation_id (record db { transactions = t })
        | broken ↦ (err query_failed, db)
      ]

  -- The checks between the look-up and the header's insert. They write nothing.
  unfoldable pub check_posting : PostLedgerTransactionDto → Db S → Result (List ℕ)
  check_posting dto db = Result.◌>>=◌ (assert_reversal_metadata dto) λ _.
      Result.◌>>=◌ (assert_reversal_target_posted dto db) λ _.
        Result.◌>>=◌ (assert_balanced_per_currency dto.entries) λ _.
          Result.◌>>=◌ (assign_line_numbers dto.entries) λ line_numbers.
            Result.◌>>=◌ (validate_account_balances_before_ledger_insert dto.entries db)
              λ _. ok line_numbers

  unfoldable pub post_new : ℕ → PostLedgerTransactionDto → Text → Action (Db S) Posted
  post_new now dto correlation_id db = elim (check_posting dto db) [
    | err e ↦ (err e, db)
    | ok line_numbers ↦ insert_header now dto correlation_id line_numbers db
  ]

  unfoldable pub post_with_shared_manager :
      ℕ → PostLedgerTransactionDto → Text → Action (Db S) Posted
  post_with_shared_manager now dto correlation_id db =
      if is_empty correlation_id
      then (err (bad_request "correlationId is required"), db)
      else elim (T.find_by_correlation correlation_id db.transactions) [
        | some existing ↦ (ok (reload existing db), db)
        | none ↦ post_new now dto correlation_id db
      ]

  -- `post`: trims the correlation and opens a transaction of its own.
  unfoldable pub post : ℕ → PostLedgerTransactionDto → Action (Db S) Posted
  post now dto =
      let correlation_id = trim dto.correlation_id in
      if is_empty correlation_id
      then throw (bad_request "correlationId is required")
      else transaction (post_with_shared_manager now dto correlation_id)
