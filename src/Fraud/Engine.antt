-- ===== src/Fraud/Engine.antt =====
-- `evaluateAll` and `afterEvaluateSideEffects` of fraud-rule-engine.service.ts. Each rule touches
-- keys and tables that no other rule writes, so one order stands for all of them.
use fintech_nova_pay.Common.{
  ℕ, suc, Bool, true, false, Option, none, some, List, [], ◌∷◌, if◌then◌else◌,
}
use fintech_nova_pay.Common.Result.{Result, ok, err, query_failed, ◌>>=◌}
use fintech_nova_pay.Common.Action.{Action}
use fintech_nova_pay.Common.Text.{Text, trim}
use fintech_nova_pay.Ledger.Store.{stored, duplicate, broken}
use fintech_nova_pay.Fraud.Entity.{FraudEvaluationContext, KnownDevice, UserTransactionHourProfile}
use fintech_nova_pay.Fraud.Store.{FraudStore, FraudDb, Run}
use fintech_nova_pay.Fraud.Rules.{
  Row, all_rules_timeout_synthetic, rule_large_transaction, rule_new_device_large_amount,
  rule_unusual_hour, resolve_fingerprint, non_empty,
}
use fintech_nova_pay.Fraud.Velocity.{rule_velocity, rule_recipient_velocity}

-- Which side of the race comes first, and what each rule reads.
pub record Schedule : Type 0 where
  pub timed_out : Bool
  pub run : ℕ → Run

pub record Outcome : Type 0 where
  pub results : List Row
  pub timed_out : Bool

abbrev or_device : Option Text → Option Text → Option Text
or_device none old = old
or_device (some s) old = some s

abbrev trimmed_id : FraudEvaluationContext → Option Text
trimmed_id ctx = elim ctx.device_id [ none ↦ none | some s ↦ non_empty (trim s) ]

module _ (S : FraudStore) where
  open S use {redis as R}

  -- The rows of the rules, or the exception that the first of them to throw has thrown.
  unfoldable pub run_rules : (ℕ → Run) → FraudEvaluationContext → Action (FraudDb S) (List Row)
  run_rules run ctx db =
      let (v, keys₁) = rule_velocity S (run 0) ctx db.keys in
      let large = rule_large_transaction S (run 1) ctx in
      let device = rule_new_device_large_amount S (run 2) ctx db in
      let hour = rule_unusual_hour S (run 3) ctx db in
      let (recipient, keys₂) = rule_recipient_velocity S (run 4) ctx keys₁ in
      (
        do a ← v; c ← device; d ← hour; e ← recipient; ok (a ∷ large ∷ c ∷ d ∷ e ∷ []),
        record db { keys = keys₂ },
      )

  -- After the budget the rows are synthetic, whatever the rules do then.
  unfoldable pub evaluate_all : Schedule → FraudEvaluationContext → Action (FraudDb S) Outcome
  evaluate_all schedule ctx db =
      let (rows, db₁) = run_rules schedule.run ctx db in
      if schedule.timed_out
      then (ok (record { results = all_rules_timeout_synthetic; timed_out = true }), db₁)
      else elim rows [
        | err e ↦ (err e, db₁)
        | ok rs ↦ (ok (record { results = rs; timed_out = false }), db₁)
      ]

  abbrev put_devices : FraudDb S → Result S.devices.Rows → Result (Unit {0}) × FraudDb S
  put_devices db (err e) = (err e, db)
  put_devices db (ok t) = (ok tt, record db { devices = t })

  abbrev first_seen : ℕ → FraudEvaluationContext → Text → KnownDevice
  first_seen now ctx fp = record {
    user_id = ctx.user_id;
    device_id = trimmed_id ctx;
    device_fingerprint = fp;
    metadata = none;
    first_seen_at = now;
    last_seen_at = now;
  }

  -- A device is registered once; the loser of a race on its key returns.
  unfoldable pub register_known_device_if_present :
      ℕ → FraudEvaluationContext → Action (FraudDb S) (Unit {0})
  register_known_device_if_present now ctx db = elim (resolve_fingerprint ctx) [
    | none ↦ (ok tt, db)
    | some fp ↦ elim (S.devices.find_one_by ctx.user_id fp db.devices) [
      | err e ↦ (err e, db)
      | ok (some existing) ↦
          let seen = record existing {
            last_seen_at = now;
            device_id = or_device (trimmed_id ctx) existing.device_id;
          } in
          put_devices db (S.devices.save seen db.devices)
      | ok none ↦ elim (S.devices.insert (first_seen now ctx fp) db.devices) [
        | stored i t ↦ (ok tt, record db { devices = t })
        | duplicate t ↦ (ok tt, record db { devices = t })
        | broken ↦ (err query_failed, db)
      ]
    ]
  ]

  abbrev bumped : ℕ → ℕ → ℕ → Option UserTransactionHourProfile → UserTransactionHourProfile
  bumped now user hour none = record {
    user_id = user;
    hour_bucket = hour;
    transaction_count = 1;
    last_increment_at = some now;
  }
  bumped now user hour (some row) = record row {
    transaction_count = suc row.transaction_count;
    last_increment_at = some now;
  }

  abbrev put_profiles : FraudDb S → Result S.profiles.Rows → Result (Unit {0}) × FraudDb S
  put_profiles db (err e) = (err e, db)
  put_profiles db (ok t) = (ok tt, record db { profiles = t })

  unfoldable pub bump_hour_histogram : ℕ → FraudEvaluationContext → Action (FraudDb S) (Unit {0})
  bump_hour_histogram now ctx db =
      let hour = S.utc_hours ctx.transaction_timestamp in
      elim (S.profiles.find_one_by ctx.user_id hour db.profiles) [
        | err e ↦ (err e, db)
        | ok row ↦ put_profiles db (S.profiles.save (bumped now ctx.user_id hour row) db.profiles)
      ]

  -- `Promise.all`: both run, and the first exception is thrown.
  unfoldable pub after_evaluate_side_effects :
      ℕ → FraudEvaluationContext → Action (FraudDb S) (Unit {0})
  after_evaluate_side_effects now ctx db =
      let (device, db₁) = register_known_device_if_present now ctx db in
      let (hour, db₂) = bump_hour_histogram now ctx db₁ in
      elim device [ err e ↦ (err e, db₂) | ok u ↦ (hour, db₂) ]
