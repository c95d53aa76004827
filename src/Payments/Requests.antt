-- ===== src/Payments/Requests.antt =====
-- What the payment path builds and tests without the database (payment-orchestrator.service.ts).
use fintech_nova_pay.Common.{
  ℕ, Bool, true, false, not, ◌||◌, Option, none, some, List, [], ◌∷◌, ◌++◌, if◌then◌else◌,
}
use fintech_nova_pay.Common.Result.{Result, bad_request, throw_if, ◌>>◌}
use fintech_nova_pay.Common.Text.{Text, trim, is_empty}
use fintech_nova_pay.Accounts.Entity.{Account, same_currency, is_active, currency_name}
use fintech_nova_pay.Outbox.Entity.{Payload, Value}
use fintech_nova_pay.Ledger.Entity.{LedgerTransactionType, debit, credit, PostLedgerTransactionDto}
use fintech_nova_pay.Payments.Entity.{Payment, PaymentType, CreatePaymentDto, payment_type_name}
use fintech_nova_pay.Fraud.Entity.{FraudDecisionState, approved, RiskDecision, decision_name}
use fintech_nova_pay.Payments.Store.{PaymentBody}

-- The body that `fingerprintCreatePayment` hashes.
abbrev pub body : CreatePaymentDto → PaymentBody
body dto = record {
  type = dto.type;
  reference = dto.reference;
  source_account_id = dto.source_account_id;
  destination_account_id = dto.destination_account_id;
  amount = dto.amount;
  currency = dto.currency;
  correlation_id = dto.correlation_id;
  memo = dto.memo;
}

abbrev pub text_or : Text → Option Text → Text
text_or d none = d
text_or d (some t) = t

-- `payment:` and the payment's identifier
unfoldable pub payment_ledger_correlation_id : (ℕ → Text) → ℕ → Text
payment_ledger_correlation_id uuid_text payment =
    b'p' ∷ b'a' ∷ b'y' ∷ b'm' ∷ b'e' ∷ b'n' ∷ b't' ∷ b':' ∷ uuid_text payment

abbrev pub ledger_type_for_payment : PaymentType → LedgerTransactionType
ledger_type_for_payment PaymentType.fee = LedgerTransactionType.fee
ledger_type_for_payment _ = LedgerTransactionType.payment

unfoldable pub build_ledger_post_dto : (ℕ → Text) → CreatePaymentDto → ℕ → PostLedgerTransactionDto
build_ledger_post_dto uuid_text dto payment = record {
  type = ledger_type_for_payment dto.type;
  reverses_transaction_id = none;
  correlation_id = payment_ledger_correlation_id uuid_text payment;
  memo = some (text_or (payment_ledger_correlation_id uuid_text payment) dto.memo);
  entries =
      record {
        account_id = dto.source_account_id;
        entry_type = debit;
        amount = dto.amount;
        currency = dto.currency;
        line_number = none;
        memo = none;
      }
      ∷ record {
        account_id = dto.destination_account_id;
        entry_type = credit;
        amount = dto.amount;
        currency = dto.currency;
        line_number = none;
        memo = none;
      }
      ∷ [];
}

-- `APPROVED` alone goes on; every other decision ends the path.
unfoldable pub is_fraud_approved_for_payment : FraudDecisionState → Bool
is_fraud_approved_for_payment approved = true
is_fraud_approved_for_payment _ = false

unfoldable pub assert_accounts_ready : Account → Account → CreatePaymentDto → Result (Unit {0})
assert_accounts_ready source dest dto = do
  throw_if (not (is_active source.status) || not (is_active dest.status))
      (bad_request "Source and destination must be ACTIVE")
  throw_if
      (not (same_currency source.currency dto.currency)
        || not (same_currency dest.currency dto.currency))
      (bad_request "Currency mismatch for payment accounts")

abbrev pub payment_payload : Payment → Payload
payment_payload p =
    ("paymentId", Value.id p.id)
    ∷ ("reference", Value.text p.reference)
    ∷ ("amount", Value.text p.amount)
    ∷ ("currency", Value.word (currency_name p.currency))
    ∷ ("type", Value.word (payment_type_name p.type))
    ∷ []

abbrev after_head : Text → List Text → Text
after_head fraud [] = fraud
after_head fraud (head ∷ rest) = if is_empty (trim head) then fraud else fraud ++ b':' ∷ b' ' ∷ head

-- `Fraud`, the decision, and the first reason if it is not blank.
unfoldable pub fraud_decline_reason : RiskDecision → Text
fraud_decline_reason d =
    after_head (b'F' ∷ b'r' ∷ b'a' ∷ b'u' ∷ b'd' ∷ b' ' ∷ decision_name d.final_decision)
      d.final_reasons

-- The entries that a decline adds to the payload; the keys of `fraud` are written with its name.
abbrev pub fraud_payload : RiskDecision → Payload
fraud_payload d =
    ("reason", Value.text (fraud_decline_reason d))
    ∷ ("fraud.riskDecisionId", Value.id d.id)
    ∷ ("fraud.finalDecision", Value.text (decision_name d.final_decision))
    ∷ ("fraud.finalReasons", Value.texts d.final_reasons)
    ∷ ("fraud.triggeredRuleTypes", Value.texts d.triggered_rule_types)
    ∷ ("fraud.correlationId", Value.text d.correlation_id)
    ∷ []
