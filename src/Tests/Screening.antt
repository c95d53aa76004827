-- ===== src/Tests/Screening.antt =====
-- Fraud evaluations over small tables.
use fintech_nova_pay.Common.{
  if◌then◌else◌, ℕ, suc, ◌*◌, ◌≤◌, ◌≡◌, refl, ltb, ◌⊎◌, Bool, true, false, Option, none, some, List,
  [], ◌∷◌, length, All, arith,
}
use mathlib.Core.List.{Permᴰ}
use fintech_nova_pay.Common.Int.{ℤ, pos, negsuc}
use fintech_nova_pay.Common.Result.{Result, ok, err, bad_request}
use fintech_nova_pay.Common.Text.{Text, trim}
use fintech_nova_pay.Decimal.{parse_scaled_amount, scaled}
use fintech_nova_pay.Decimal.Pattern.{span_digits, match_fraction, match_decimal}
use fintech_nova_pay.Accounts.Entity.{usd}
use fintech_nova_pay.Outbox.Enqueue.{enqueue_in_transaction}
use fintech_nova_pay.Ledger.Store.{Inserted, stored}
use fintech_nova_pay.Fraud.Entity.{
  FraudDecisionState, approved, blocked, action_required, FraudEvaluationContext, RiskDecision,
  risk_decision_key, FraudSignal, KnownDevice, UserTransactionHourProfile,
}
use fintech_nova_pay.Fraud.Store.{
  NewRiskDecision, decision_with_id, reread_decision, DecisionTable, Redis, Floats, FraudStore,
  FraudDb, enqueue_fraud_event,
}
use fintech_nova_pay.Fraud.Rules.{
  Row, error_result, passed, raised, all_rules_timeout_synthetic, resolve_fingerprint,
  invalid_amount_result, transaction_count_sum, rule_large_transaction,
  rule_new_device_large_amount, rule_unusual_hour,
}
use fintech_nova_pay.Fraud.Velocity.{
  superseded, velocity_row, has_text, add_sender, distinct_senders, recipient_row, velocity_add,
  velocity_count, velocity_window, rule_velocity, recipient_add, recipient_scan, recipient_window,
  rule_recipient_velocity,
}
use fintech_nova_pay.Fraud.Aggregate.{
  aggregate, fold_decision, reasons_of, types_of, catastrophic_row, catastrophic_rule_rows,
}
use fintech_nova_pay.Fraud.Engine.{
  Schedule, run_rules, evaluate_all, register_known_device_if_present, bump_hour_histogram,
  after_evaluate_side_effects,
}
use fintech_nova_pay.Fraud.Service.{
  decision_props, signal_props, resolved, decision_event, save_decision_and_signals,
  persist_risk_decision_and_signals, side_effects, evaluate_synchronously, flag_resolved,
  resolve_row, resolve_in_transaction, resolve_risk_decision,
}
use fintech_nova_pay.Fraud.Decision.{NoWorse, Contributed, aggregate-worst, aggregate-Perm}
use fintech_nova_pay.Fraud.FailClosed.{over_budget, evaluate-fail_closed, evaluate-large}
use fintech_nova_pay.Fraud.Records.{Recorded, evaluate-Recorded, Resolved, resolve-once}
use fintech_nova_pay.Tests.Columns.{four_places}
use fintech_nova_pay.Tests.Tables.{event_ids, sum}
use fintech_nova_pay.Tests.Rows.{find_row, row_table}
use fintech_nova_pay.Tests.Postings.{is_ok, returned}

abbrev add_decision : NewRiskDecision → List RiskDecision → Inserted (List RiskDecision)
add_decision n t =
    stored (suc (length t)) (reread_decision four_places (decision_with_id (suc (length t)) n) ∷ t)

add_decision-find :
    (n : NewRiskDecision) (t : List RiskDecision) {i : ℕ} {t' : List RiskDecision}
    → add_decision n t ≡ stored i t'
    → find_row risk_decision_key i t' ≡ some (reread_decision four_places (decision_with_id i n))
unfolding find_row
add_decision-find n t h = ground (arith, h)

abbrev decision_table : DecisionTable
decision_table = record {
  table = row_table risk_decision_key;
  column = four_places;
  insert = add_decision;
  insert-find = add_decision-find;
}

-- From here on a number is infinite.
abbrev largest : ℕ
largest = 1000000000000000000000000

abbrev magnitude : Result ℤ → Option ℕ
magnitude (ok (pos v)) = if ltb v largest then some v else none
magnitude (ok (negsuc v)) = none
magnitude (err e) = none

magnitude-is : (v : ℕ) {x : ℕ} → magnitude (ok (pos v)) ≡ some x → x ≡ v
magnitude-is v h = ground (arith, h)

magnitude-exceeds :
    (s : Text) {v x : ℕ} (n : ℕ)
    → parse_scaled_amount s ≡ ok (pos v)
    → magnitude (parse_scaled_amount s) ≡ some x
    → n ≤ 10000
    → ltb (n * 10000) x ≡ ltb (n * 10000) v
magnitude-exceeds s {v} {x} n p q h =
    let same : x ≡ v = magnitude-is v (ground (arith, p, q)) in rw same refl

-- Numbers counted in ten-thousandths.
abbrev floats : Floats
floats = record {
  Number = ℕ;
  parse_float = λ s. magnitude (parse_scaled_amount s);
  exceeds = λ x n. ltb (n * 10000) x;
  exceeds-parse_float = magnitude-exceeds;
}

-- A counter of the attempts.
abbrev counter : Redis
counter = record {
  Keys = ℕ;
  zremrangebyscore = λ k a b n. (ok tt, n);
  zcount = λ k a b n. ok n;
  zrangebyscore = λ k a b n. ok [];
  zadd = λ k t m n. (ok tt, suc n);
  expire = λ k t n. (ok tt, n);
}

abbrev screen : FraudStore
screen = record {
  decisions = decision_table;
  signals = record { Rows = List FraudSignal; save_all = λ ss t. ok ss };
  devices = record {
    Rows = List KnownDevice;
    find_one_by = λ u fp t. ok none;
    insert = λ x t. stored 1 (x ∷ t);
    save = λ x t. ok (x ∷ t);
  };
  profiles = record {
    Rows = List UserTransactionHourProfile;
    find_in = λ u hs t. ok t;
    find_one_by = λ u h t. ok none;
    save = λ x t. ok (x ∷ t);
  };
  events = event_ids;
  redis_enabled = true;
  redis = counter;
  floats = floats;
  uuid_text = λ i. i ∷ [];
  utc_hours = λ t. 3;
}

abbrev screen_db : FraudDb screen
screen_db = record {
  decisions = [];
  signals = [];
  devices = [];
  profiles = [];
  keys = 0;
  outbox = [];
}

abbrev attempt : Text → FraudEvaluationContext
attempt amount = record {
  user_id = 10;
  source_account_id = 1;
  destination_account_id = 2;
  recipient_account_id = 2;
  sender_account_id = 1;
  amount = amount;
  currency = usd;
  payment_reference = b'r' ∷ [];
  correlation_id = b'c' ∷ [];
  device_id = none;
  device_fingerprint = none;
  transaction_timestamp = 7;
}

abbrev calm : Bool → Schedule
calm late = record {
  timed_out = late;
  run = λ i. record { now = 9000000; took = 1; aborted = λ j. false };
}

-- 20000 and 12
abbrev large : Text
large = b'2' ∷ b'0' ∷ b'0' ∷ b'0' ∷ b'0' ∷ []

abbrev small : Text
small = b'1' ∷ b'2' ∷ []

abbrev evaluated : Bool → Text → Result RiskDecision × FraudDb screen
evaluated late amount = evaluate_synchronously screen 7 (calm late) (attempt amount) screen_db

abbrev cleared : Result RiskDecision × FraudDb screen
cleared = resolve_risk_decision screen 8 1 none (evaluated true small).1

decided : Result RiskDecision → Option FraudDecisionState
decided (ok d) = some d.final_decision
decided (err e) = none

runs :
    (is_ok (evaluated false large).0 ≡ true)
    × (is_ok (evaluated true small).0 ≡ true)
    × (is_ok cleared.0 ≡ true)
    × (decided (evaluated false small).0 ≡ some approved)
unfolding decided trim parse_scaled_amount scaled span_digits match_fraction match_decimal
    enqueue_in_transaction enqueue_fraud_event error_result passed raised
    all_rules_timeout_synthetic resolve_fingerprint invalid_amount_result transaction_count_sum
    rule_large_transaction rule_new_device_large_amount rule_unusual_hour superseded velocity_row
    has_text add_sender distinct_senders recipient_row velocity_add velocity_count velocity_window
    rule_velocity recipient_add recipient_scan recipient_window rule_recipient_velocity aggregate
    fold_decision reasons_of types_of catastrophic_row catastrophic_rule_rows run_rules evaluate_all
    register_known_device_if_present bump_hour_histogram after_evaluate_side_effects decision_props
    signal_props resolved decision_event save_decision_and_signals persist_risk_decision_and_signals
    side_effects evaluate_synchronously flag_resolved resolve_row resolve_in_transaction
    resolve_risk_decision find_row sum
runs = (refl, refl, refl, refl)

abbrev quiet : Row
quiet = rule_large_transaction screen ((calm false).run 1) (attempt small)

abbrev loud : Row
loud = rule_large_transaction screen ((calm false).run 1) (attempt large)

aggregate-worst_example :
    All (NoWorse (aggregate (quiet ∷ loud ∷ []) false).final_decision) (quiet ∷ loud ∷ [])
    × (((aggregate (quiet ∷ loud ∷ []) false).final_decision ≡ approved)
        ⊎ Contributed (aggregate (quiet ∷ loud ∷ []) false).final_decision (quiet ∷ loud ∷ []))
aggregate-worst_example = aggregate-worst (quiet ∷ loud ∷ []) false

aggregate-Perm_example :
    (aggregate (quiet ∷ loud ∷ []) false).final_decision
    ≡ (aggregate (loud ∷ quiet ∷ []) false).final_decision
aggregate-Perm_example = aggregate-Perm false (Permᴰ.swap refl refl)

evaluate-fail_closed_example : (returned (evaluated true small) runs.1).0.final_decision ≡ blocked
evaluate-fail_closed_example =
    evaluate-fail_closed screen 7 (calm true) (attempt small) screen_db (over_budget refl)
      (returned (evaluated true small) runs.1).1

evaluate-large_example :
    ((returned (evaluated false large) runs.0).0.final_decision ≡ action_required)
    ⊎ ((returned (evaluated false large) runs.0).0.final_decision ≡ blocked)
unfolding parse_scaled_amount scaled trim match_decimal span_digits match_fraction
evaluate-large_example =
    evaluate-large screen 7 (calm false) (attempt large) screen_db {v = 200000000} refl
      (omega arith) (returned (evaluated false large) runs.0).1

evaluate-Recorded_example :
    Recorded screen (returned (evaluated false large) runs.0).0 screen_db (evaluated false large).1
evaluate-Recorded_example =
    evaluate-Recorded screen 7 (calm false) (attempt large) screen_db
      (returned (evaluated false large) runs.0).1

resolve-once_example :
    Resolved screen 8 1 (returned cleared runs.2).0 (evaluated true small).1 cleared.1
    × ((now' : ℕ) (remark' : Option Text)
        → resolve_risk_decision screen now' 1 remark' cleared.1 ≡ (
          err (bad_request "Only BLOCKED or REVIEW decisions can be resolved to APPROVED"),
          cleared.1,
        ))
resolve-once_example =
    resolve-once screen 8 1 none (evaluated true small).1 (returned cleared runs.2).1
