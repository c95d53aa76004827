-- ===== src/Fraud/Aggregate.antt =====
-- `aggregate` and `catastrophicRuleRows` of modules/fraud/service/fraud.service.ts.
use fintech_nova_pay.Common.{
  ℕ, ltb, Bool, true, false, Option, none, some, List, String, [], ◌∷◌, ◌++◌, map, if◌then◌else◌,
}
use fintech_nova_pay.Common.Result.{Exception, message}
use fintech_nova_pay.Common.Text.{Text}
use fintech_nova_pay.Outbox.Entity.{Payload, Value}
use fintech_nova_pay.Fraud.Entity.{
  FraudDecisionState, approved, review, blocked, action_required, FraudRuleResult, FraudRuleType,
  velocity, large_transaction, new_device_large_amount, unusual_hour_pattern, recipient_velocity,
  text_of, rule_type_name,
}
use fintech_nova_pay.Fraud.Rules.{Row}

-- `RANK`
abbrev pub rank : FraudDecisionState → ℕ
rank approved = 1
rank review = 2
rank action_required = 3
rank blocked = 4

pub record FraudAggregateSnapshot : Type 0 where
  pub final_decision : FraudDecisionState
  pub final_reasons : List Text
  pub triggered_rule_types : List Text
  pub engine_metadata : Option Payload

abbrev contribution_of : FraudRuleResult → FraudDecisionState → FraudDecisionState
contribution_of FraudRuleResult.error recommended = blocked
contribution_of FraudRuleResult.triggered recommended = recommended
contribution_of FraudRuleResult.not_triggered recommended = approved

abbrev pub contribution : Row → FraudDecisionState
contribution r = contribution_of r.result r.recommended_decision

abbrev counts : FraudRuleResult → Bool
counts FraudRuleResult.not_triggered = false
counts _ = true

-- `[TYPE] message`
abbrev reason : Row → Text
reason r = b'[' ∷ rule_type_name r.rule_type ++ b']' ∷ b' ' ∷ text_of r.message

abbrev pub worse : FraudDecisionState → FraudDecisionState → FraudDecisionState
worse contribution final = if ltb (rank final) (rank contribution) then contribution else final

unfoldable pub fold_decision : FraudDecisionState → List Row → FraudDecisionState
fold_decision final [] = final
fold_decision final (r ∷ rs) = fold_decision (worse (contribution r) final) rs

unfoldable pub reasons_of : List Row → List Text
reasons_of [] = []
reasons_of (r ∷ rs) = let rest = reasons_of rs in if counts r.result then reason r ∷ rest else rest

unfoldable pub types_of : List Row → List Text
types_of [] = []
types_of (r ∷ rs) =
    let rest = types_of rs in if counts r.result then rule_type_name r.rule_type ∷ rest else rest

-- The loop keeps three accumulators, which do not meet.
unfoldable pub aggregate : List Row → Bool → FraudAggregateSnapshot
aggregate results engine_timed_out = record {
  final_decision = fold_decision approved results;
  final_reasons = reasons_of results;
  triggered_rule_types = types_of results;
  engine_metadata =
      if engine_timed_out then some (("engineTimedOut", Value.flag true) ∷ []) else none;
}

unfoldable pub catastrophic_row : String → FraudRuleType → Row
catastrophic_row msg t = record {
  rule_type = t;
  result = FraudRuleResult.error;
  recommended_decision = blocked;
  reason_code = "ENGINE_FAILURE";
  message = msg;
  evidence = ("phase", Value.word "catastrophic") ∷ [];
  duration_ms = 0;
}

unfoldable pub catastrophic_rule_rows : Exception → List Row
unfolding catastrophic_row
catastrophic_rule_rows e = map (catastrophic_row (message e)) (
    velocity ∷ large_transaction ∷ new_device_large_amount ∷ unusual_hour_pattern
    ∷ recipient_velocity ∷ [])
