-- ===== src/Ledger/Entity.antt =====
-- Ledger rows and posting commands (modules/ledger/entities, enums and dto). An entry's own
-- identifier and the creation times are the database's, and nothing here reads them.
use fintech_nova_pay.Common.{ℕ, String, Bool, true, false, Option, List}
use fintech_nova_pay.Common.Text.{Text}
use fintech_nova_pay.Accounts.Entity.{Currency}

pub data LedgerEntryType : Type 0 where
  debit credit : LedgerEntryType

pub data LedgerTransactionStatus : Type 0 where
  pending posted : LedgerTransactionStatus

pub data LedgerTransactionType : Type 0 where
  transfer payment reversal adjustment fee fx_conversion : LedgerTransactionType

pub record LedgerTransaction : Type 0 where
  pub id : ℕ
  pub type : LedgerTransactionType
  pub status : LedgerTransactionStatus
  pub reverses_transaction_id : Option ℕ
  pub correlation_id : Text
  pub memo : Option Text

pub record LedgerEntry : Type 0 where
  pub ledger_transaction_id : ℕ
  pub account_id : ℕ
  pub entry_type : LedgerEntryType
  pub amount : Text
  pub currency : Currency
  pub line_number : ℕ
  pub memo : Option Text

pub record PostLedgerEntryLineDto : Type 0 where
  pub account_id : ℕ
  pub entry_type : LedgerEntryType
  pub amount : Text
  pub currency : Currency
  pub line_number : Option ℕ
  pub memo : Option Text

pub record PostLedgerTransactionDto : Type 0 where
  pub type : LedgerTransactionType
  pub reverses_transaction_id : Option ℕ
  pub correlation_id : Text
  pub memo : Option Text
  pub entries : List PostLedgerEntryLineDto

pub record ReverseLedgerTransactionDto : Type 0 where
  pub original_ledger_transaction_id : ℕ
  pub correlation_id : Text
  pub memo : Option Text

abbrev pub is_reversal : LedgerTransactionType → Bool
is_reversal reversal = true
is_reversal _ = false

abbrev pub is_posted : LedgerTransactionStatus → Bool
is_posted posted = true
is_posted pending = false

abbrev pub type_name : LedgerTransactionType → String
type_name transfer = "TRANSFER"
type_name payment = "PAYMENT"
type_name reversal = "REVERSAL"
type_name adjustment = "ADJUSTMENT"
type_name fee = "FEE"
type_name fx_conversion = "FX_CONVERSION"
