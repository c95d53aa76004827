-- ===== src/Outbox/Entity.antt =====
-- The outbox row (outbox-event.entity.ts), its statuses and the routing keys.
use fintech_nova_pay.Common.{ℕ, String, Bool, Option, List}
use fintech_nova_pay.Common.Text.{Text}

pub data OutboxStatus : Type 0 where
  pending claimed published failed : OutboxStatus

pub data OutboxRoutingKey : Type 0 where
  ledger_transaction_posted ledger_transaction_reversed : OutboxRoutingKey
  payment_created payment_completed payment_failed : OutboxRoutingKey
  fraud_risk_blocked fraud_risk_action_required fraud_risk_review_triggered : OutboxRoutingKey
  fraud_flag_resolved : OutboxRoutingKey
  account_created account_frozen account_unfrozen : OutboxRoutingKey
  payroll_batch_created payroll_batch_funded payroll_batch_completed : OutboxRoutingKey
  payroll_batch_failed payroll_item_completed : OutboxRoutingKey
  fx_rate_locked fx_rate_lock_expired fx_trade_executed : OutboxRoutingKey
  fx_international_transfer_created : OutboxRoutingKey
  loan_applied loan_disbursed loan_repayment_received loan_overdue : OutboxRoutingKey

-- The values of a payload, `Record<string, unknown>`.
pub data Value : Type 0 where
  null : Value
  id : ℕ → Value
  text : Text → Value
  word : String → Value
  texts : List Text → Value
  time : ℕ → Value
  number : ℕ → Value
  flag : Bool → Value

abbrev pub Payload : Type 0
Payload = List (String × Value)

pub record OutboxEvent : Type 0 where
  pub id : ℕ
  pub routing_key : OutboxRoutingKey
  pub payload : Payload
  pub status : OutboxStatus
  pub correlation_id : Option Text
  pub occurred_at : ℕ
  pub created_at : ℕ
  pub claimed_at : Option ℕ
  pub published_at : Option ℕ

pub record NewOutboxEventRow : Type 0 where
  pub routing_key : OutboxRoutingKey
  pub payload : Payload
  pub correlation_id : Option Text
  pub occurred_at : ℕ
