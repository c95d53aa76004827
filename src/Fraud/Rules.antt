-- ===== src/Fraud/Rules.antt =====
-- The rules of fraud-rule-engine.service.ts that read no Redis, and the rows that all rules build.
use fintech_nova_pay.Common.{
  ℕ, ◌+◌, ◌==◌, not, ◌||◌, Option, none, some, List, String, [], ◌∷◌, if◌then◌else◌,
}
use fintech_nova_pay.Common.Result.{Result, ok, err}
use fintech_nova_pay.Common.Dict.{elem}
use fintech_nova_pay.Common.Text.{Text, trim, is_empty}
use fintech_nova_pay.Accounts.Entity.{currency_name}
use fintech_nova_pay.Outbox.Entity.{Payload, Value}
use fintech_nova_pay.Fraud.Entity.{
  FraudDecisionState, approved, review, blocked, action_required, FraudRuleResult, FraudRuleType,
  velocity, large_transaction, new_device_large_amount, unusual_hour_pattern, recipient_velocity,
  FraudEvaluationContext, FraudRuleEvaluationResult, UserTransactionHourProfile,
}
use fintech_nova_pay.Fraud.Store.{FraudStore, FraudDb, Run}

abbrev pub Row : Type 0
Row = FraudRuleEvaluationResult

unfoldable pub error_result : FraudRuleType → String → String → Payload → ℕ → Row
error_result rule_type reason_code message evidence ms = record {
  rule_type = rule_type;
  result = FraudRuleResult.error;
  recommended_decision = blocked;
  reason_code = reason_code;
  message = message;
  evidence = evidence;
  duration_ms = ms;
}

-- The literals that the rules return.
unfoldable pub passed : FraudRuleType → String → String → Payload → ℕ → Row
passed rule_type reason_code message evidence ms = record {
  rule_type = rule_type;
  result = FraudRuleResult.not_triggered;
  recommended_decision = approved;
  reason_code = reason_code;
  message = message;
  evidence = evidence;
  duration_ms = ms;
}

unfoldable pub raised : FraudRuleType → FraudDecisionState → String → String → Payload → ℕ → Row
raised rule_type decision reason_code message evidence ms = record {
  rule_type = rule_type;
  result = FraudRuleResult.triggered;
  recommended_decision = decision;
  reason_code = reason_code;
  message = message;
  evidence = evidence;
  duration_ms = ms;
}

abbrev timeout_row : FraudRuleType → Row
timeout_row t =
    error_result t "ENGINE_BUDGET_EXCEEDED"
      "Fraud evaluation exceeded synchronous budget (fail-closed)"
      (("budgetMs", Value.number 200) ∷ []) 200

unfoldable pub all_rules_timeout_synthetic : List Row
all_rules_timeout_synthetic =
    timeout_row velocity
    ∷ timeout_row large_transaction
    ∷ timeout_row new_device_large_amount
    ∷ timeout_row unusual_hour_pattern
    ∷ timeout_row recipient_velocity
    ∷ []

abbrev trimmed : Option Text → Text
trimmed none = []
trimmed (some s) = trim s

abbrev pub non_empty : Text → Option Text
non_empty s = if is_empty s then none else some s

-- The fingerprint, or the device's identifier, if one of them is not blank.
unfoldable pub resolve_fingerprint : FraudEvaluationContext → Option Text
resolve_fingerprint ctx =
    if is_empty (trimmed ctx.device_fingerprint)
    then non_empty (trimmed ctx.device_id)
    else some (trimmed ctx.device_fingerprint)

unfoldable pub invalid_amount_result : FraudRuleType → Text → ℕ → Row
invalid_amount_result t amount ms =
    error_result t "INVALID_AMOUNT" "Amount is not a finite decimal string"
      (("amount", Value.text amount) ∷ []) ms

abbrev large_evidence : FraudEvaluationContext → Payload
large_evidence ctx =
    ("threshold", Value.number 10000)
    ∷ ("amount", Value.text ctx.amount)
    ∷ ("currency", Value.word (currency_name ctx.currency))
    ∷ []

unfoldable pub transaction_count_sum : List UserTransactionHourProfile → ℕ
transaction_count_sum [] = 0
transaction_count_sum (r ∷ rs) = r.transaction_count + transaction_count_sum rs

abbrev hour_evidence : ℕ → ℕ → Payload
hour_evidence hour prior =
    ("hourUtc", Value.number hour) ∷ ("priorCountInWindow", Value.number prior) ∷ []

module _ (S : FraudStore) where
  open S use {floats as F}

  unfoldable pub rule_large_transaction : Run → FraudEvaluationContext → Row
  rule_large_transaction run ctx = elim (F.parse_float ctx.amount) [
    | none ↦ invalid_amount_result large_transaction ctx.amount run.took
    | some amt ↦
        if F.exceeds amt 10000
        then raised large_transaction action_required "LARGE_AMOUNT_OTP"
            "Amount exceeds threshold; OTP challenge required" (large_evidence ctx) run.took
        else passed large_transaction "LARGE_AMOUNT_OK" "Below large-transaction threshold"
            (large_evidence ctx) run.took
  ]

  abbrev new_device : Text → F.Number → ℕ → Row
  new_device fp amt ms =
      let evidence : Payload =
        ("deviceFingerprint", Value.text fp) ∷ ("threshold", Value.number 500) ∷ [] in
      if F.exceeds amt 500
      then raised new_device_large_amount review "NEW_DEVICE_LARGE"
          "First-seen device with elevated amount" evidence ms
      else passed new_device_large_amount "NEW_DEVICE_SMALL_AMOUNT"
          "First-seen device under amount threshold" evidence ms

  unfoldable pub rule_new_device_large_amount :
      Run → FraudEvaluationContext → FraudDb S → Result Row
  rule_new_device_large_amount run ctx db = elim (resolve_fingerprint ctx) [
    | none ↦ ok (
        passed new_device_large_amount "NO_DEVICE_CONTEXT"
          "No device fingerprint available for this rule" [] run.took)
    | some fp ↦ elim (F.parse_float ctx.amount) [
      | none ↦ ok (invalid_amount_result new_device_large_amount ctx.amount run.took)
      | some amt ↦ elim (S.devices.find_one_by ctx.user_id fp db.devices) [
        | err e ↦ err e
        | ok none ↦ ok (new_device fp amt run.took)
        | ok (some existing) ↦ ok (
            passed new_device_large_amount "KNOWN_DEVICE" "Device already seen for user"
              (("deviceFingerprint", Value.text fp) ∷ []) run.took)
      ]
    ]
  ]

  abbrev unusual_hour_buckets : List ℕ
  unusual_hour_buckets = 2 ∷ 3 ∷ 4 ∷ []

  abbrev history : ℕ → ℕ → ℕ → Row
  history hour prior ms =
      if prior == 0
      then raised unusual_hour_pattern review "UNUSUAL_HOUR_NO_HISTORY"
          "No prior activity in 02:00–04:59 UTC with elevated amount"
          (("hourUtc", Value.number hour)
            ∷ ("priorCountInWindow", Value.number prior)
            ∷ ("threshold", Value.number 200)
            ∷ [])
          ms
      else passed unusual_hour_pattern "UNUSUAL_HOUR_HAS_HISTORY"
          "User has historical activity in the unusual-hour window" (hour_evidence hour prior) ms

  unfoldable pub rule_unusual_hour : Run → FraudEvaluationContext → FraudDb S → Result Row
  rule_unusual_hour run ctx db =
      let hour = S.utc_hours ctx.transaction_timestamp in
      elim (F.parse_float ctx.amount) [
        | none ↦ ok (invalid_amount_result unusual_hour_pattern ctx.amount run.took)
        | some amt ↦
            if not (elem hour unusual_hour_buckets) || not (F.exceeds amt 200)
            then ok (
                passed unusual_hour_pattern "UNUSUAL_HOUR_OK"
                  "Outside unusual-hour window or amount below threshold"
                  (("hourUtc", Value.number hour) ∷ ("amount", Value.text ctx.amount) ∷ [])
                  run.took)
            else elim (S.profiles.find_in ctx.user_id unusual_hour_buckets db.profiles) [
              | err e ↦ err e
              | ok rows ↦ ok (history hour (transaction_count_sum rows) run.took)
            ]
      ]
