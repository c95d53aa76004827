-- ===== src/Fraud/Evaluation.antt =====
-- How an evaluation reaches its decision.
use fintech_nova_pay.Common.{
  ℕ, ◌≡◌, refl, ◌∙◌, ◌⊎◌, inl, inr, Bool, true, false, List, [], ◌∷◌, map, Bool-cases, arith,
}
use fintech_nova_pay.Common.Result.{Result, ok, err, Exception, Result-cases}
use fintech_nova_pay.Common.Action.{transaction-eq-ok}
use fintech_nova_pay.Ledger.Store.{Inserted-cases}
use fintech_nova_pay.Outbox.Entity.{Value}
use fintech_nova_pay.Fraud.Entity.{
  FraudDecisionState, blocked, FraudEvaluationContext, RiskDecision,
}
use fintech_nova_pay.Fraud.Store.{FraudStore, FraudDb}
use fintech_nova_pay.Fraud.Rules.{
  Row, rule_new_device_large_amount, rule_unusual_hour, all_rules_timeout_synthetic,
  rule_large_transaction,
}
use fintech_nova_pay.Fraud.Velocity.{rule_velocity, rule_recipient_velocity}
use fintech_nova_pay.Fraud.Aggregate.{
  FraudAggregateSnapshot, aggregate, fold_decision, catastrophic_row, catastrophic_rule_rows,
}
use fintech_nova_pay.Fraud.Engine.{
  Schedule, Outcome, run_rules, evaluate_all, after_evaluate_side_effects,
}
use fintech_nova_pay.Fraud.Service.{
  with_metadata, decision_props, signal_props, save_decision_and_signals,
  persist_risk_decision_and_signals, side_effects, evaluate_synchronously,
}

module _ (S : FraudStore) where
  open S use {decisions as D, floats as F}

  pub persist-decision :
      (now : ℕ) (ctx : FraudEvaluationContext) (rs : List Row) (a : FraudAggregateSnapshot)
      (db : FraudDb S) {d : RiskDecision} {db' : FraudDb S}
      → persist_risk_decision_and_signals S now ctx rs a db ≡ (ok d, db')
      → d.final_decision ≡ a.final_decision
  unfolding persist_risk_decision_and_signals save_decision_and_signals decision_props
  persist-decision now ctx rs a db {d} {db'} h =
      let run =
        transaction-eq-ok (save_decision_and_signals S now ctx rs a) db {a = d} {s' = db'} h in
      elim (Inserted-cases (D.insert (decision_props ctx a) db.decisions)) [
        | inl (i, t, s) ↦
            elim (Result-cases (S.signals.save_all (map (signal_props ctx i) rs) db.signals)) [
              | inl (g, e) ↦ ground (arith, s, e, run)
              | inr (x, e) ↦ absurd (ground (arith, s, e, run))
            ]
        | inr (inl (t, s)) ↦ absurd (ground (arith, s, run))
        | inr (inr s) ↦ absurd (ground (arith, s, run))
      ]

  side_effects-decision :
      (now : ℕ) (ctx : FraudEvaluationContext) (timed_out : Bool) (a : FraudAggregateSnapshot)
      (db : FraudDb S)
      → (side_effects S now ctx timed_out a db).0.final_decision ≡ a.final_decision
  unfolding side_effects
  side_effects-decision now ctx true a db = refl
  side_effects-decision now ctx false a db =
      elim (Result-cases (after_evaluate_side_effects S now ctx db).0) [
        | inl (u, e) ↦ ground (arith, e)
        | inr (x, e) ↦ ground (arith, e)
      ]

  -- What the engine's outcome says the decision has to be.
  abbrev pub Decided : Result Outcome → FraudDecisionState → Type 0
  Decided (err e) d = d ≡ blocked
  Decided (ok o) d = d ≡ (aggregate o.results o.timed_out).final_decision

  pub catastrophic-blocked :
      (e : Exception) → (aggregate (catastrophic_rule_rows e) false).final_decision ≡ blocked
  unfolding aggregate catastrophic_rule_rows catastrophic_row fold_decision
  catastrophic-blocked e = refl

  pub evaluate-Decided :
      (now : ℕ) (schedule : Schedule) (ctx : FraudEvaluationContext) (db : FraudDb S)
      {d : RiskDecision} {db' : FraudDb S}
      → evaluate_synchronously S now schedule ctx db ≡ (ok d, db')
      → Decided (evaluate_all S schedule ctx db).0 d.final_decision
  unfolding evaluate_synchronously
  evaluate-Decided now schedule ctx db {d} {db'} h =
      let engine = evaluate_all S schedule ctx db in
      elim (Result-cases engine.0) [
        | inr (e, x) ↦
            let rows = catastrophic_rule_rows e in
            let a =
              with_metadata (aggregate rows false) ("failClosed", Value.word "CATASTROPHIC") in
            let same =
              persist-decision now ctx rows a engine.1 {d = d} {db' = db'} (ground (arith, x, h)) in
            rw x (same ∙ catastrophic-blocked e)
        | inl (o, x) ↦
            let done =
              side_effects S now ctx o.timed_out (aggregate o.results o.timed_out) engine.1 in
            let same =
              persist-decision now ctx o.results done.0 done.1 {d = d} {db' = db'}
                (ground (arith, x, h)) in
            rw x (
              same
              ∙ side_effects-decision now ctx o.timed_out (aggregate o.results o.timed_out)
                  engine.1)
      ]

  abbrev pub large_row : Schedule → FraudEvaluationContext → Row
  large_row schedule ctx = rule_large_transaction S (schedule.run 1) ctx

  run_rules-rows :
      (schedule : Schedule) (ctx : FraudEvaluationContext) (db : FraudDb S) {rs : List Row}
      → (run_rules S schedule.run ctx db).0 ≡ ok rs
      → (a : Row) × (rest : List Row) × ((rule_velocity S (schedule.run 0) ctx db.keys).0 ≡ ok a)
        × (rs ≡ a ∷ large_row schedule ctx ∷ rest)
  unfolding run_rules
  run_rules-rows schedule ctx db {rs} h =
      let v = rule_velocity S (schedule.run 0) ctx db.keys in
      let w = rule_recipient_velocity S (schedule.run 4) ctx v.1 in
      elim (Result-cases v.0) [
        | inr (x, e) ↦ absurd (ground (arith, e, h))
        | inl (a, e) ↦
            elim (Result-cases (rule_new_device_large_amount S (schedule.run 2) ctx db)) [
              | inr (x, f) ↦ absurd (ground (arith, e, f, h))
              | inl (c, f) ↦ elim (Result-cases (rule_unusual_hour S (schedule.run 3) ctx db)) [
                | inr (x, g) ↦ absurd (ground (arith, e, f, g, h))
                | inl (b, g) ↦ elim (Result-cases w.0) [
                  | inr (x, k) ↦ absurd (ground (arith, e, f, g, k, h))
                  | inl (z, k) ↦ (a, c ∷ b ∷ z ∷ [], e, ground (arith, e, f, g, k, h))
                ]
              ]
            ]
      ]

  -- The rows of an engine in time: the velocity row and the large-amount row are among them.
  abbrev pub InTime :
      (schedule : Schedule) (ctx : FraudEvaluationContext) (db : FraudDb S) (o : Outcome) → Type 0
  InTime schedule ctx db o =
      (a : Row) × (rest : List Row) × ((rule_velocity S (schedule.run 0) ctx db.keys).0 ≡ ok a)
      × (o.results ≡ a ∷ large_row schedule ctx ∷ rest)

  pub evaluate_all-cases :
      (schedule : Schedule) (ctx : FraudEvaluationContext) (db : FraudDb S) {o : Outcome}
      → (evaluate_all S schedule ctx db).0 ≡ ok o
      → (o.results ≡ all_rules_timeout_synthetic)
        ⊎ ((schedule.timed_out ≡ false) × InTime schedule ctx db o)
  unfolding evaluate_all
  evaluate_all-cases schedule ctx db {o} h =
      let rows = run_rules S schedule.run ctx db in
      elim (Bool-cases schedule.timed_out) [
        | inl t ↦ inl (ground (arith, t, h))
        | inr t ↦ elim (Result-cases rows.0) [
          | inr (e, x) ↦ absurd (ground (arith, t, x, h))
          | inl (rs, x) ↦
              let (a, rest, v, is) = run_rules-rows schedule ctx db x in
              inr (t, (a, rest, v, ground (arith, t, x, h, is)))
        ]
      ]
