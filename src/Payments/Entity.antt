-- ===== src/Payments/Entity.antt =====
-- Payments, idempotency records and the payment command (modules/payments/entities, enums, dto).
-- Creation and update times are the database's.
use fintech_nova_pay.Common.{ℕ, String, Bool, true, false, Option}
use fintech_nova_pay.Common.Text.{Text}
use fintech_nova_pay.Accounts.Entity.{Currency}

pub data PaymentStatus : Type 0 where
  pending processing completed failed cancelled : PaymentStatus

pub data PaymentType : Type 0 where
  internal_transfer payout collection fee : PaymentType

pub record Payment : Type 0 where
  pub id : ℕ
  pub type : PaymentType
  pub status : PaymentStatus
  pub reference : Text
  pub idempotency_record_id : ℕ
  pub source_account_id : ℕ
  pub destination_account_id : ℕ
  pub amount : Text
  pub currency : Currency
  pub ledger_transaction_id : Option ℕ
  pub correlation_id : Option Text
  pub memo : Option Text

pub data IdempotencyRecordStatus : Type 0 where
  pending completed failed conflict : IdempotencyRecordStatus

pub record IdempotencyRecord : Type 0 where
  pub id : ℕ
  pub idempotency_key : Text
  pub scope_key : Text
  pub status : IdempotencyRecordStatus
  pub request_fingerprint : Option Text
  pub linked_payment_id : Option ℕ
  pub business_reference : Option Text

pub record CreatePaymentDto : Type 0 where
  pub idempotency_key : Text
  pub idempotency_scope_key : Option Text
  pub type : PaymentType
  pub reference : Text
  pub source_account_id : ℕ
  pub destination_account_id : ℕ
  pub amount : Text
  pub currency : Currency
  pub correlation_id : Option Text
  pub memo : Option Text

abbrev pub is_collection : PaymentType → Bool
is_collection collection = true
is_collection _ = false

-- `COMPLETED` or `FAILED`
abbrev pub is_terminal : PaymentStatus → Bool
is_terminal completed = true
is_terminal failed = true
is_terminal _ = false

abbrev pub payment_type_name : PaymentType → String
payment_type_name internal_transfer = "INTERNAL_TRANSFER"
payment_type_name payout = "PAYOUT"
payment_type_name collection = "COLLECTION"
payment_type_name fee = "FEE"
