-- ===== src/Payments/Store.antt =====
-- What the payment path keeps, the database behind it, and what it takes from elsewhere.
use fintech_nova_pay.Common.{ℕ, ◌≡◌, Option, some}
use fintech_nova_pay.Common.Int.{ℤ}
use fintech_nova_pay.Common.Result.{Result, ok}
use fintech_nova_pay.Common.Text.{Text}
use fintech_nova_pay.Decimal.{parse_scaled_amount, parse_amount_to_big_int4}
use fintech_nova_pay.Accounts.Entity.{Currency}
use fintech_nova_pay.Ledger.Store.{LedgerStore, Db, Inserted, stored}
use fintech_nova_pay.Payments.Entity.{
  Payment, PaymentType, PaymentStatus, IdempotencyRecord, IdempotencyRecordStatus,
}
use fintech_nova_pay.Fraud.Entity.{FraudEvaluationContext, RiskDecision}

pub record NewRecord : Type 0 where
  pub idempotency_key : Text
  pub scope_key : Text
  pub status : IdempotencyRecordStatus
  pub request_fingerprint : Option Text
  pub linked_payment_id : Option ℕ
  pub business_reference : Option Text

abbrev pub record_with_id : ℕ → NewRecord → IdempotencyRecord
record_with_id i n = record {
  id = i;
  idempotency_key = n.idempotency_key;
  scope_key = n.scope_key;
  status = n.status;
  request_fingerprint = n.request_fingerprint;
  linked_payment_id = n.linked_payment_id;
  business_reference = n.business_reference;
}

-- `payments_idempotency_records`, unique by key and scope.
pub record RecordTable : Type 1 where
  pub Rows : Type 0
  pub find_by_key : Text → Text → Rows → Option IdempotencyRecord
  pub insert : NewRecord → Rows → Inserted Rows
  pub save : IdempotencyRecord → Rows → Rows
  pub find-key :
      (k s : Text) (t : Rows) {r : IdempotencyRecord}
      → find_by_key k s t ≡ some r
      → (r.idempotency_key ≡ k) × (r.scope_key ≡ s)
  pub insert-find :
      (n : NewRecord) (t : Rows) {i : ℕ} {t' : Rows}
      → insert n t ≡ stored i t'
      → find_by_key n.idempotency_key n.scope_key t' ≡ some (record_with_id i n)
  pub find-save :
      (r : IdempotencyRecord) (t : Rows)
      → find_by_key r.idempotency_key r.scope_key (save r t) ≡ some r

pub record NewPayment : Type 0 where
  pub type : PaymentType
  pub status : PaymentStatus
  pub reference : Text
  pub idempotency_record_id : ℕ
  pub source_account_id : ℕ
  pub destination_account_id : ℕ
  pub amount : Text
  pub currency : Currency
  pub ledger_transaction_id : Option ℕ
  pub correlation_id : Option Text
  pub memo : Option Text

abbrev pub payment_with_id : ℕ → NewPayment → Payment
payment_with_id i n = record {
  id = i;
  type = n.type;
  status = n.status;
  reference = n.reference;
  idempotency_record_id = n.idempotency_record_id;
  source_account_id = n.source_account_id;
  destination_account_id = n.destination_account_id;
  amount = n.amount;
  currency = n.currency;
  ledger_transaction_id = n.ledger_transaction_id;
  correlation_id = n.correlation_id;
  memo = n.memo;
}

-- A payment with its amount as the column spells it.
abbrev pub reread_payment : (Text → Text) → Payment → Payment
reread_payment column p = record p { amount = column p.amount }

-- `payments`, unique by idempotency record.
pub record PaymentTable : Type 1 where
  -- The text that a column of type numeric(19,4) gives back for an amount: '12.5' is '12.5000'.
  pub column : Text → Text
  pub column-value :
      (s : Text) {v : ℤ} → parse_scaled_amount s ≡ ok v → parse_amount_to_big_int4 (column s) ≡ ok v
  pub Rows : Type 0
  pub find_by_record : ℕ → Rows → Option Payment
  pub insert : NewPayment → Rows → Inserted Rows
  pub save : Payment → Rows → Rows
  pub find-save :
      (p : Payment) (t : Rows)
      → find_by_record p.idempotency_record_id (save p t) ≡ some (reread_payment column p)
  pub find-record :
      (i : ℕ) (t : Rows) {p : Payment} → find_by_record i t ≡ some p → p.idempotency_record_id ≡ i

-- The body of a command without its idempotency key and scope.
pub record PaymentBody : Type 0 where
  pub type : PaymentType
  pub reference : Text
  pub source_account_id : ℕ
  pub destination_account_id : ℕ
  pub amount : Text
  pub currency : Currency
  pub correlation_id : Option Text
  pub memo : Option Text

pub record PaymentStore : Type 1 where
  pub ledger : LedgerStore
  pub records : RecordTable
  pub payments : PaymentTable
  -- The text of an identifier.
  pub uuid_text : ℕ → Text
  -- `createHash('sha256')` over `JSON.stringify` of the body with its keys sorted.
  -- (`canonicalizeForFingerprint` does no more than that on a flat body.)
  pub hash : PaymentBody → Text
  -- `FraudService.evaluateSynchronously`, which commits its own rows.
  pub evaluate : FraudEvaluationContext → Result RiskDecision

pub record MoneyDb (Ledger Records Payments : Type 0) : Type 0 where
  pub ledger : Ledger
  pub records : Records
  pub payments : Payments

abbrev pub PaymentDb : PaymentStore → Type 0
PaymentDb S = MoneyDb (Db S.ledger) S.records.Rows S.payments.Rows
