-- ===== src/Ledger/Reversal.antt =====
-- `ReversalService` of modules/ledger/service/reversal.service.ts.
use fintech_nova_pay.Common.{ℕ, not, Option, none, some, List, [], ◌∷◌, if◌then◌else◌}
use fintech_nova_pay.Common.Result.{ok, err, bad_request, not_found}
use fintech_nova_pay.Common.Action.{Action}
use fintech_nova_pay.Common.Text.{is_empty}
use fintech_nova_pay.Ledger.Entity.{
  LedgerEntry, LedgerEntryType, debit, credit, reversal, is_reversal, is_posted,
  PostLedgerEntryLineDto, PostLedgerTransactionDto, ReverseLedgerTransactionDto,
}
use fintech_nova_pay.Ledger.Store.{LedgerStore, Db, Posted}
use fintech_nova_pay.Ledger.Posting.{load_tx_with_entries, reload, post}

abbrev pub opposite : LedgerEntryType → LedgerEntryType
opposite debit = credit
opposite credit = debit

-- The lines that offset those of the original.
unfoldable pub mirror : List LedgerEntry → List PostLedgerEntryLineDto
mirror [] = []
mirror (e ∷ es) =
    record {
      account_id = e.account_id;
      entry_type = opposite e.entry_type;
      amount = e.amount;
      currency = e.currency;
      line_number = some e.line_number;
      memo = e.memo;
    }
    ∷ mirror es

abbrev joined : Option (List LedgerEntry) → List LedgerEntry
joined none = []
joined (some es) = es

unfoldable pub reversal_dto :
    ReverseLedgerTransactionDto → ℕ → List LedgerEntry → PostLedgerTransactionDto
reversal_dto dto original es = record {
  type = reversal;
  reverses_transaction_id = some original;
  correlation_id = dto.correlation_id;
  memo = dto.memo;
  entries = mirror es;
}

module _ (S : LedgerStore) where
  open S use {transactions as T}

  -- The original's checks, and the posting of the mirrored lines.
  unfoldable pub reverse_original : ℕ → ReverseLedgerTransactionDto → Action (Db S) Posted
  reverse_original now dto db =
      elim (load_tx_with_entries S dto.original_ledger_transaction_id db) [
        | none ↦ (err (not_found "Original ledger transaction not found"), db)
        | some original ↦ elim (joined original.entries) [
          | [] ↦ (err (not_found "Original ledger transaction not found"), db)
          | e ∷ es ↦
              if not (is_posted original.header.status)
              then (err (bad_request "Only posted transactions can be reversed"), db)
              else if is_reversal original.header.type
              then (
                err (
                    bad_request
                      "Reversing a reversal is not supported here; use an explicit posting"),
                db,
              )
              else post S now (reversal_dto dto original.header.id (e ∷ es)) db
        ]
      ]

  unfoldable pub reverse : ℕ → ReverseLedgerTransactionDto → Action (Db S) Posted
  reverse now dto db =
      if is_empty dto.correlation_id
      then reverse_original now dto db
      else elim (T.find_by_correlation dto.correlation_id db.transactions) [
        | some existing ↦ (ok (reload S existing db), db)
        | none ↦ reverse_original now dto db
      ]
