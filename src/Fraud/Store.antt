-- ===== src/Fraud/Store.antt =====
-- What the fraud services keep: their tables, the sorted sets of Redis, and their outbox rows. The
-- driver, Redis and JavaScript's `parseFloat` are no part of the repository; the fields that state
-- equations are their documented behaviour.
use fintech_nova_pay.Common.{ℕ, ◌*◌, ◌≡◌, ◌≤◌, ltb, Bool, Option, some, List}
use fintech_nova_pay.Common.Int.{pos}
use fintech_nova_pay.Common.Result.{Result, ok}
use fintech_nova_pay.Common.Text.{Text}
use fintech_nova_pay.Common.Table.{Table}
use fintech_nova_pay.Decimal.{parse_scaled_amount}
use fintech_nova_pay.Accounts.Entity.{Currency}
use fintech_nova_pay.Outbox.Entity.{OutboxEvent, OutboxRoutingKey, Payload}
use fintech_nova_pay.Outbox.Enqueue.{EventIds, enqueue_in_transaction}
use fintech_nova_pay.Ledger.Store.{Inserted, stored}
use fintech_nova_pay.Fraud.Entity.{
  FraudDecisionState, RiskDecision, risk_decision_key, FraudSignal, KnownDevice,
  UserTransactionHourProfile,
}

-- The properties that `saveDecisionAndSignalsInTransaction` is given.
pub record NewRiskDecision : Type 0 where
  pub final_decision : FraudDecisionState
  pub user_id : ℕ
  pub source_account_id : ℕ
  pub destination_account_id : ℕ
  pub recipient_account_id : ℕ
  pub sender_account_id : ℕ
  pub amount : Text
  pub currency : Currency
  pub payment_reference : Text
  pub correlation_id : Text
  pub final_reasons : List Text
  pub triggered_rule_types : List Text
  pub engine_metadata : Option Payload

abbrev pub decision_with_id : ℕ → NewRiskDecision → RiskDecision
decision_with_id i n = record {
  id = i;
  final_decision = n.final_decision;
  user_id = n.user_id;
  source_account_id = n.source_account_id;
  destination_account_id = n.destination_account_id;
  recipient_account_id = n.recipient_account_id;
  sender_account_id = n.sender_account_id;
  amount = n.amount;
  currency = n.currency;
  payment_reference = n.payment_reference;
  correlation_id = n.correlation_id;
  final_reasons = n.final_reasons;
  triggered_rule_types = n.triggered_rule_types;
  engine_metadata = n.engine_metadata;
}

-- A decision with its amount as the column spells it.
abbrev pub reread_decision : (Text → Text) → RiskDecision → RiskDecision
reread_decision column d = record d { amount = column d.amount }

-- `fraud_risk_decisions`
pub record DecisionTable : Type 1 where
  -- What the numeric column of the amount gives back.
  pub column : Text → Text
  pub table : Table RiskDecision risk_decision_key
  pub insert : NewRiskDecision → table.Rows → Inserted table.Rows
  pub insert-find :
      (n : NewRiskDecision) (t : table.Rows) {i : ℕ} {t' : table.Rows}
      → insert n t ≡ stored i t'
      → table.find i t' ≡ some (reread_decision column (decision_with_id i n))

-- `fraud_signals`; nothing in the module reads them back.
pub record SignalTable : Type 1 where
  pub Rows : Type 0
  pub save_all : List FraudSignal → Rows → Result Rows

-- `fraud_known_devices`, unique by user and fingerprint, and `fraud_user_transaction_hour_profiles`,
-- unique by user and hour. A query may fail.
pub record DeviceTable : Type 1 where
  pub Rows : Type 0
  pub find_one_by : ℕ → Text → Rows → Result (Option KnownDevice)
  pub insert : KnownDevice → Rows → Inserted Rows
  pub save : KnownDevice → Rows → Result Rows

pub record ProfileTable : Type 1 where
  pub Rows : Type 0
  pub find_in : ℕ → List ℕ → Rows → Result (List UserTransactionHourProfile)
  pub find_one_by : ℕ → ℕ → Rows → Result (Option UserTransactionHourProfile)
  pub save : UserTransactionHourProfile → Rows → Result Rows

-- The commands on sorted sets; each may fail, and a failed one may have run.
pub record Redis : Type 1 where
  pub Keys : Type 0
  pub zremrangebyscore : Text → ℕ → ℕ → Keys → Result (Unit {0}) × Keys
  pub zcount : Text → ℕ → ℕ → Keys → Result ℕ
  pub zrangebyscore : Text → ℕ → ℕ → Keys → Result (List Text)
  pub zadd : Text → ℕ → Text → Keys → Result (Unit {0}) × Keys
  pub expire : Text → ℕ → Keys → Result (Unit {0}) × Keys

-- `Number.parseFloat` with the comparisons of its results. With an integer
-- up to 10,000, an amount of four places compares as its ten-thousandths do.
pub record Floats : Type 1 where
  pub Number : Type 0
  -- `none` when the result is not finite
  pub parse_float : Text → Option Number
  pub exceeds : Number → ℕ → Bool
  pub exceeds-parse_float :
      (s : Text) {v : ℕ} {x : Number} (n : ℕ)
      → parse_scaled_amount s ≡ ok (pos v)
      → parse_float s ≡ some x
      → n ≤ 10000
      → exceeds x n ≡ ltb (n * 10000) v

pub record FraudStore : Type 1 where
  pub decisions : DecisionTable
  pub signals : SignalTable
  pub devices : DeviceTable
  pub profiles : ProfileTable
  pub events : EventIds
  -- `getRawClient()` is null when Redis is switched off.
  pub redis_enabled : Bool
  pub redis : Redis
  pub floats : Floats
  pub uuid_text : ℕ → Text
  -- `getUTCHours()`
  pub utc_hours : ℕ → ℕ

pub record RiskDb (Decisions Signals Devices Profiles Keys : Type 0) : Type 0 where
  pub decisions : Decisions
  pub signals : Signals
  pub devices : Devices
  pub profiles : Profiles
  pub keys : Keys
  pub outbox : List OutboxEvent

abbrev pub FraudDb : FraudStore → Type 0
FraudDb S = RiskDb S.decisions.table.Rows S.signals.Rows S.devices.Rows S.profiles.Rows S.redis.Keys

-- What one run of a rule reads beside its data: the clock, the time it took, and the abort signal at
-- each of its checkpoints.
pub record Run : Type 0 where
  pub now : ℕ
  pub took : ℕ
  pub aborted : ℕ → Bool

module _ (S : FraudStore) where
  unfoldable pub enqueue_fraud_event : ℕ → OutboxRoutingKey → Text → Payload → FraudDb S → FraudDb S
  enqueue_fraud_event now key correlation payload db = record db {
    outbox =
        enqueue_in_transaction S.events now
          (record {
            routing_key = key;
            payload = payload;
            correlation_id = some correlation;
            occurred_at = now;
          })
          db.outbox;
  }
