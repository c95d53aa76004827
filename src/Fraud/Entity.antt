-- ===== src/Fraud/Entity.antt =====
-- Fraud decisions, signals and rule results (modules/fraud/entities, enums, interfaces). Creation
-- and update times are the database's, times are milliseconds.
use fintech_nova_pay.Common.{ℕ, String, Option, List, [], ◌∷◌}
use Prim.Native.Char.{code}
use fintech_nova_pay.Common.Text.{Text}
use fintech_nova_pay.Accounts.Entity.{Currency}
use fintech_nova_pay.Outbox.Entity.{Payload}

pub data FraudDecisionState : Type 0 where
  approved review blocked action_required : FraudDecisionState

pub data FraudRuleResult : Type 0 where
  not_triggered triggered error : FraudRuleResult

pub data FraudRuleType : Type 0 where
  velocity large_transaction new_device_large_amount unusual_hour_pattern : FraudRuleType
  recipient_velocity : FraudRuleType

pub record FraudEvaluationContext : Type 0 where
  pub user_id : ℕ
  pub source_account_id : ℕ
  pub destination_account_id : ℕ
  pub recipient_account_id : ℕ
  pub sender_account_id : ℕ
  pub amount : Text
  pub currency : Currency
  pub payment_reference : Text
  pub correlation_id : Text
  pub device_id : Option Text
  pub device_fingerprint : Option Text
  pub transaction_timestamp : ℕ

pub record FraudRuleEvaluationResult : Type 0 where
  pub rule_type : FraudRuleType
  pub result : FraudRuleResult
  pub recommended_decision : FraudDecisionState
  pub reason_code : String
  pub message : String
  pub evidence : Payload
  pub duration_ms : ℕ

pub record RiskDecision : Type 0 where
  pub id : ℕ
  pub final_decision : FraudDecisionState
  pub user_id : ℕ
  pub source_account_id : ℕ
  pub destination_account_id : ℕ
  pub recipient_account_id : ℕ
  pub sender_account_id : ℕ
  pub amount : Text
  pub currency : Currency
  pub payment_reference : Text
  pub correlation_id : Text
  pub final_reasons : List Text
  pub triggered_rule_types : List Text
  pub engine_metadata : Option Payload

abbrev pub risk_decision_key : RiskDecision → ℕ
risk_decision_key d = d.id

pub record FraudSignal : Type 0 where
  pub risk_decision_id : Option ℕ
  pub user_id : ℕ
  pub source_account_id : ℕ
  pub destination_account_id : ℕ
  pub recipient_account_id : ℕ
  pub sender_account_id : ℕ
  pub payment_reference : Text
  pub correlation_id : Text
  pub rule_type : FraudRuleType
  pub rule_result : FraudRuleResult
  pub recommended_decision : FraudDecisionState
  pub reason_code : String
  pub message : String
  pub evidence : Payload

pub record KnownDevice : Type 0 where
  pub user_id : ℕ
  pub device_id : Option Text
  pub device_fingerprint : Text
  pub metadata : Option Payload
  pub first_seen_at : ℕ
  pub last_seen_at : ℕ

pub record UserTransactionHourProfile : Type 0 where
  pub user_id : ℕ
  pub hour_bucket : ℕ
  pub transaction_count : ℕ
  pub last_increment_at : Option ℕ

-- The code units of a text of the basic plane.
abbrev pub text_of : String → Text
text_of String.[] = []
text_of (String.◌∷◌ c s) = code c ∷ text_of s

-- The members' values as the enums give them.
abbrev pub decision_name : FraudDecisionState → Text
decision_name approved = text_of "APPROVED"
decision_name review = text_of "REVIEW"
decision_name blocked = text_of "BLOCKED"
decision_name action_required = text_of "ACTION_REQUIRED"

abbrev pub rule_type_name : FraudRuleType → Text
rule_type_name velocity = text_of "VELOCITY"
rule_type_name large_transaction = text_of "LARGE_TRANSACTION"
rule_type_name new_device_large_amount = text_of "NEW_DEVICE_LARGE_AMOUNT"
rule_type_name unusual_hour_pattern = text_of "UNUSUAL_HOUR_PATTERN"
rule_type_name recipient_velocity = text_of "RECIPIENT_VELOCITY"
