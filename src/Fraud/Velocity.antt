-- ===== src/Fraud/Velocity.antt =====
-- The two rules of fraud-rule-engine.service.ts on the sorted sets of Redis.
use fintech_nova_pay.Common.{
  ℕ, ◌-◌, ◌==◌, ltb, leb, length, Bool, true, false, not, ◌||◌, Option, none, some, List, [], ◌∷◌,
  ◌++◌, if◌then◌else◌,
}
use fintech_nova_pay.Common.Result.{ok, err, message}
use fintech_nova_pay.Common.Action.{Action, pure, catch}
use fintech_nova_pay.Common.Text.{Text, is_empty, same_text}
use fintech_nova_pay.Outbox.Entity.{Payload, Value}
use fintech_nova_pay.Fraud.Entity.{
  review, FraudRuleType, velocity, recipient_velocity, FraudEvaluationContext, text_of,
}
use fintech_nova_pay.Fraud.Store.{FraudStore, Run}
use fintech_nova_pay.Fraud.Rules.{Row, error_result, passed, raised}

unfoldable pub superseded : FraudRuleType → Payload → ℕ → Row
superseded rule_type evidence ms =
    passed rule_type "EVALUATION_SUPERSEDED" "Skipped Redis mutation after evaluation budget"
      evidence ms

abbrev pub velocity_evidence : ℕ → Payload
velocity_evidence prior = ("priorCount", Value.number prior) ∷ ("windowMs", Value.number 60000) ∷ []

unfoldable pub velocity_row : ℕ → ℕ → Row
velocity_row prior ms =
    if leb 5 prior
    then raised velocity review "VELOCITY_WINDOW" "More than 5 attempts in 60000ms window"
        (velocity_evidence prior) ms
    else passed velocity "VELOCITY_OK" "Within velocity limits" (velocity_evidence prior) ms

-- The text before the first `|`, if there is one and the text is not empty.
before_bar : Text → Option Text
before_bar [] = none
before_bar (c ∷ s) =
    if c == b'|' then some [] else elim (before_bar s) [ none ↦ none | some t ↦ some (c ∷ t) ]

unfoldable pub has_text : Text → List Text → Bool
has_text s [] = false
has_text s (t ∷ ts) = same_text s t || has_text s ts

-- `Set.prototype.add`
unfoldable pub add_sender : Text → List Text → List Text
unfolding has_text
add_sender s ts = if has_text s ts then ts else s ∷ ts

abbrev add_sender_of : Option Text → List Text → List Text
add_sender_of none ts = ts
add_sender_of (some s) ts = if is_empty s then ts else add_sender s ts

-- The distinct senders among the members, oldest first.
unfoldable pub distinct_senders : List Text → List Text → List Text
unfolding before_bar add_sender
distinct_senders [] ts = ts
distinct_senders (m ∷ ms) ts = distinct_senders ms (add_sender_of (before_bar m) ts)

unfoldable pub recipient_row : ℕ → ℕ → Row
recipient_row senders ms =
    if ltb 20 senders
    then raised recipient_velocity review "RECIPIENT_MULE_VELOCITY"
        "Recipient inbound velocity from many distinct senders"
        (("distinctSenders", Value.number senders)
          ∷ ("threshold", Value.number 20)
          ∷ ("windowMs", Value.number 3600000)
          ∷ [])
        ms
    else passed recipient_velocity "RECIPIENT_VELOCITY_OK"
        "Recipient inbound sender diversity within limits"
        (("distinctSenders", Value.number senders) ∷ ("threshold", Value.number 20) ∷ []) ms

module _ (S : FraudStore) where
  open S use {redis as R}

  abbrev pub velocity_key : FraudEvaluationContext → Text
  velocity_key ctx = text_of "fraud:velocity:z:" ++ S.uuid_text ctx.user_id

  abbrev velocity_member : FraudEvaluationContext → Text
  velocity_member ctx = ctx.correlation_id ++ b':' ∷ ctx.payment_reference

  unfoldable pub velocity_add : Run → FraudEvaluationContext → ℕ → Action R.Keys Row
  velocity_add run ctx prior keys =
      let (done, keys₁) = R.zadd (velocity_key ctx) run.now (velocity_member ctx) keys in
      elim done [ ok u ↦ (ok (velocity_row prior run.took), keys₁) | err e ↦ (err e, keys₁) ]

  unfoldable pub velocity_count : Run → FraudEvaluationContext → Action R.Keys Row
  velocity_count run ctx keys = elim (R.zcount (velocity_key ctx) (run.now - 60000) run.now keys) [
    | err e ↦ (err e, keys)
    | ok prior ↦
        if run.aborted 2
        then (ok (superseded velocity (("priorCount", Value.number prior) ∷ []) run.took), keys)
        else velocity_add run ctx prior keys
  ]

  -- A clock reads more than an hour, so that the subtractions do not stop at zero.
  unfoldable pub velocity_window : Run → FraudEvaluationContext → Action R.Keys Row
  velocity_window run ctx keys =
      if run.aborted 0
      then (ok (superseded velocity [] run.took), keys)
      else let (done, keys₁) = R.zremrangebyscore (velocity_key ctx) 0 (run.now - 60000 - 1) keys in
        elim done [
          | err e ↦ (err e, keys₁)
          | ok u ↦
              if run.aborted 1
              then (ok (superseded velocity (("pruned", Value.flag true) ∷ []) run.took), keys₁)
              else velocity_count run ctx keys₁
        ]

  unfoldable pub rule_velocity : Run → FraudEvaluationContext → Action R.Keys Row
  rule_velocity run ctx =
      if not S.redis_enabled
      then pure (error_result velocity "REDIS_DISABLED" "Velocity rule requires Redis" [] run.took)
      else catch (velocity_window run ctx)
          (λ e. pure (error_result velocity "VELOCITY_ERROR" (message e) [] run.took))

  abbrev recipient_key : FraudEvaluationContext → Text
  recipient_key ctx = text_of "fraud:recipient_velocity:z:" ++ S.uuid_text ctx.recipient_account_id

  abbrev recipient_member : FraudEvaluationContext → Text
  recipient_member ctx = S.uuid_text ctx.sender_account_id ++ b'|' ∷ ctx.payment_reference

  unfoldable pub recipient_add : Run → FraudEvaluationContext → ℕ → Action R.Keys Row
  recipient_add run ctx senders keys =
      let (done, keys₁) = R.zadd (recipient_key ctx) run.now (recipient_member ctx) keys in
      elim done [
        | err e ↦ (err e, keys₁)
        | ok u ↦
            let (expiring, keys₂) = R.expire (recipient_key ctx) 7200 keys₁ in
            elim expiring [
              | err e ↦ (err e, keys₂)
              | ok u' ↦ (ok (recipient_row senders run.took), keys₂)
            ]
      ]

  unfoldable pub recipient_scan : Run → FraudEvaluationContext → Action R.Keys Row
  recipient_scan run ctx keys =
      elim (R.zrangebyscore (recipient_key ctx) (run.now - 3600000) run.now keys) [
        | err e ↦ (err e, keys)
        | ok raw ↦
            let senders =
              length (add_sender (S.uuid_text ctx.sender_account_id) (distinct_senders raw [])) in
            if run.aborted 2
            then (
              ok (superseded recipient_velocity (("scanned", Value.flag true) ∷ []) run.took),
              keys,
            )
            else if run.aborted 3
            then (
              ok (
                  superseded recipient_velocity (("distinctSenders", Value.number senders) ∷ [])
                    run.took),
              keys,
            )
            else recipient_add run ctx senders keys
      ]

  unfoldable pub recipient_window : Run → FraudEvaluationContext → Action R.Keys Row
  recipient_window run ctx keys =
      if run.aborted 0
      then (ok (superseded recipient_velocity [] run.took), keys)
      else let (done, keys₁) =
          R.zremrangebyscore (recipient_key ctx) 0 (run.now - 3600000 - 1) keys in
        elim done [
          | err e ↦ (err e, keys₁)
          | ok u ↦
              if run.aborted 1
              then (
                ok (superseded recipient_velocity (("pruned", Value.flag true) ∷ []) run.took),
                keys₁,
              )
              else recipient_scan run ctx keys₁
        ]

  unfoldable pub rule_recipient_velocity : Run → FraudEvaluationContext → Action R.Keys Row
  rule_recipient_velocity run ctx =
      if not S.redis_enabled
      then pure (
          error_result recipient_velocity "REDIS_DISABLED" "Recipient velocity rule requires Redis"
            [] run.took)
      else catch (recipient_window run ctx) (λ e.
        pure (error_result recipient_velocity "RECIPIENT_VELOCITY_ERROR" (message e) [] run.took))
