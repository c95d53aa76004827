-- ===== src/Fraud/Service.antt =====
-- fraud.service.ts and fraud-rule-log.service.ts of modules/fraud/service: an evaluation, the rows
-- it writes, and the resolution of a decision.
use fintech_nova_pay.Common.{
  ℕ, Bool, true, false, not, Option, none, some, List, String, [], ◌∷◌, ◌++◌, map, if◌then◌else◌,
}
use fintech_nova_pay.Common.Result.{ok, err, message, not_found, bad_request, query_failed}
use fintech_nova_pay.Common.Action.{Action, transaction}
use fintech_nova_pay.Common.Text.{Text, trim}
use fintech_nova_pay.Outbox.Entity.{
  Payload, Value, fraud_risk_blocked, fraud_risk_action_required, fraud_risk_review_triggered,
  fraud_flag_resolved,
}
use fintech_nova_pay.Ledger.Store.{stored, duplicate, broken}
use fintech_nova_pay.Fraud.Entity.{
  FraudDecisionState, approved, review, blocked, action_required, FraudRuleResult,
  FraudEvaluationContext, RiskDecision, FraudSignal, decision_name, text_of,
}
use fintech_nova_pay.Fraud.Store.{
  NewRiskDecision, decision_with_id, FraudStore, FraudDb, enqueue_fraud_event,
}
use fintech_nova_pay.Fraud.Rules.{Row, non_empty}
use fintech_nova_pay.Fraud.Aggregate.{FraudAggregateSnapshot, aggregate, catastrophic_rule_rows}
use fintech_nova_pay.Fraud.Engine.{Schedule, evaluate_all, after_evaluate_side_effects}

unfoldable pub decision_props : FraudEvaluationContext → FraudAggregateSnapshot → NewRiskDecision
decision_props ctx a = record {
  final_decision = a.final_decision;
  user_id = ctx.user_id;
  source_account_id = ctx.source_account_id;
  destination_account_id = ctx.destination_account_id;
  recipient_account_id = ctx.recipient_account_id;
  sender_account_id = ctx.sender_account_id;
  amount = ctx.amount;
  currency = ctx.currency;
  payment_reference = ctx.payment_reference;
  correlation_id = ctx.correlation_id;
  final_reasons = a.final_reasons;
  triggered_rule_types = a.triggered_rule_types;
  engine_metadata = a.engine_metadata;
}

abbrev blocked_on_error : FraudRuleResult → FraudDecisionState → FraudDecisionState
blocked_on_error FraudRuleResult.error d = blocked
blocked_on_error _ d = d

unfoldable pub signal_props : FraudEvaluationContext → ℕ → Row → FraudSignal
signal_props ctx decision r = record {
  risk_decision_id = some decision;
  user_id = ctx.user_id;
  source_account_id = ctx.source_account_id;
  destination_account_id = ctx.destination_account_id;
  recipient_account_id = ctx.recipient_account_id;
  sender_account_id = ctx.sender_account_id;
  payment_reference = ctx.payment_reference;
  correlation_id = ctx.correlation_id;
  rule_type = r.rule_type;
  rule_result = r.result;
  recommended_decision = blocked_on_error r.result r.recommended_decision;
  reason_code = r.reason_code;
  message = r.message;
  evidence = r.evidence;
}

abbrev fraud_fields : String → ℕ → RiskDecision → (String × Value) → Payload
fraud_fields name now saved extra =
    ("eventName", Value.word name)
    ∷ ("riskDecisionId", Value.id saved.id)
    ∷ ("userId", Value.id saved.user_id)
    ∷ ("paymentReference", Value.text saved.payment_reference)
    ∷ ("correlationId", Value.text saved.correlation_id)
    ∷ extra
    ∷ ("occurredAt", Value.time now)
    ∷ []

abbrev head_or : Text → List Text → Text
head_or t [] = t
head_or t (s ∷ ss) = s

abbrev optional_text : Option Text → Value
optional_text none = Value.null
optional_text (some s) = Value.text s

-- `resolutionNote`, trimmed, if it is not blank
abbrev note_of : Option Text → Option Text
note_of none = none
note_of (some s) = non_empty (trim s)

abbrev pub is_resolvable : FraudDecisionState → Bool
is_resolvable blocked = true
is_resolvable review = true
is_resolvable _ = false

abbrev metadata_or_empty : Option Payload → Payload
metadata_or_empty none = []
metadata_or_empty (some m) = m

unfoldable pub resolved : ℕ → RiskDecision → RiskDecision
resolved now row = record row {
  final_decision = approved;
  engine_metadata = some (
      metadata_or_empty row.engine_metadata
      ++ ("resolvedAt", Value.time now)
        ∷ ("previousDecision", Value.text (decision_name row.final_decision))
        ∷ []);
}

abbrev pub with_metadata : FraudAggregateSnapshot → (String × Value) → FraudAggregateSnapshot
with_metadata a entry = record a {
  engine_metadata = some (metadata_or_empty a.engine_metadata ++ entry ∷ []);
}

module _ (S : FraudStore) where
  open S use {decisions as D, signals as G}

  -- The event of a decision other than `APPROVED`.
  unfoldable pub decision_event : ℕ → RiskDecision → FraudDecisionState → FraudDb S → FraudDb S
  decision_event now saved approved db = db
  decision_event now saved blocked db =
      enqueue_fraud_event S now fraud_risk_blocked saved.correlation_id
        (fraud_fields "fraud.risk.blocked" now saved
          ("triggeredRuleTypes", Value.texts saved.triggered_rule_types))
        db
  decision_event now saved action_required db =
      enqueue_fraud_event S now fraud_risk_action_required saved.correlation_id
        (fraud_fields "fraud.risk.action_required" now saved
          ("reasonCode", Value.text (head_or (text_of "ACTION_REQUIRED") saved.final_reasons)))
        db
  decision_event now saved review db =
      enqueue_fraud_event S now fraud_risk_review_triggered saved.correlation_id
        (fraud_fields "fraud.risk.review_triggered" now saved
          ("triggeredRuleTypes", Value.texts saved.triggered_rule_types))
        db

  -- `saveDecisionAndSignalsInTransaction` and the event.
  unfoldable pub save_decision_and_signals :
      ℕ
      → FraudEvaluationContext
      → List Row
      → FraudAggregateSnapshot
      → Action (FraudDb S) RiskDecision
  save_decision_and_signals now ctx results a db =
      elim (D.insert (decision_props ctx a) db.decisions) [
        | broken ↦ (err query_failed, db)
        | duplicate t ↦ (err query_failed, db)
        | stored i t ↦
            let saved = decision_with_id i (decision_props ctx a) in
            elim (G.save_all (map (signal_props ctx i) results) db.signals) [
              | err e ↦ (err e, record db { decisions = t })
              | ok signals ↦ (
                ok saved,
                decision_event now saved saved.final_decision
                    (record db { decisions = t; signals = signals }),
              )
            ]
      ]

  unfoldable pub persist_risk_decision_and_signals :
      ℕ
      → FraudEvaluationContext
      → List Row
      → FraudAggregateSnapshot
      → Action (FraudDb S) RiskDecision
  persist_risk_decision_and_signals now ctx results a =
      transaction (save_decision_and_signals now ctx results a)

  -- The side effects, whose exception only leaves a mark, and what the aggregate is then.
  unfoldable pub side_effects :
      ℕ
      → FraudEvaluationContext
      → Bool
      → FraudAggregateSnapshot
      → FraudDb S
      → FraudAggregateSnapshot × FraudDb S
  side_effects now ctx timed_out a db =
      if timed_out
      then (a, db)
      else let (done, db₁) = after_evaluate_side_effects S now ctx db in
        elim done [
          | ok u ↦ (a, db₁)
          | err e ↦ (with_metadata a ("sideEffectsError", Value.word (message e)), db₁)
        ]

  unfoldable pub evaluate_synchronously :
      ℕ → Schedule → FraudEvaluationContext → Action (FraudDb S) RiskDecision
  evaluate_synchronously now schedule ctx db =
      let (out, db₁) = evaluate_all S schedule ctx db in
      elim out [
        | err e ↦
            let synthetic = catastrophic_rule_rows e in
            persist_risk_decision_and_signals now ctx synthetic
              (with_metadata (aggregate synthetic false) ("failClosed", Value.word "CATASTROPHIC"))
              db₁
        | ok o ↦
            let (a, db₂) = side_effects now ctx o.timed_out (aggregate o.results o.timed_out) db₁ in
            persist_risk_decision_and_signals now ctx o.results a db₂
      ]

  unfoldable pub flag_resolved :
      ℕ → Option Text → FraudDecisionState → RiskDecision → FraudDb S → FraudDb S
  flag_resolved now resolution_note previous saved =
      enqueue_fraud_event S now fraud_flag_resolved saved.correlation_id (
        fraud_fields "fraud.flag.resolved" now saved
          ("previousDecision", Value.text (decision_name previous))
        ++ ("resolutionNote", optional_text (note_of resolution_note)) ∷ [])

  unfoldable pub resolve_row : ℕ → Option Text → RiskDecision → Action (FraudDb S) RiskDecision
  resolve_row now resolution_note row db =
      if not (is_resolvable row.final_decision)
      then (err (bad_request "Only BLOCKED or REVIEW decisions can be resolved to APPROVED"), db)
      else let saved = resolved now row in
        (
          ok saved,
          flag_resolved now resolution_note row.final_decision saved
              (record db { decisions = D.table.save saved db.decisions }),
        )

  unfoldable pub resolve_in_transaction : ℕ → ℕ → Option Text → Action (FraudDb S) RiskDecision
  resolve_in_transaction now id resolution_note db = elim (D.table.find id db.decisions) [
    | none ↦ (err (not_found "Risk decision not found"), db)
    | some row ↦ resolve_row now resolution_note row db
  ]

  unfoldable pub resolve_risk_decision : ℕ → ℕ → Option Text → Action (FraudDb S) RiskDecision
  resolve_risk_decision now id resolution_note =
      transaction (resolve_in_transaction now id resolution_note)
