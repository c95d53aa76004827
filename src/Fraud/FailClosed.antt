-- ===== src/Fraud/FailClosed.antt =====
-- What an evaluation decides on uncertain inputs and on large amounts.
use fintech_nova_pay.Common.{
  ℕ, ◌*◌, ◌≤◌, ◌<◌, ◌≡◌, refl, sym, ◌∙◌, ap, ltb, ◌⊎◌, inl, inr, Bool, true, false, none, List, All,
  Option-cases, arith,
}
use mathlib.Core.Path.{subst}
use fintech_nova_pay.Common.Int.{pos}
use fintech_nova_pay.Common.Result.{ok, err, Exception, Result-cases}
use fintech_nova_pay.Decimal.{parse_scaled_amount}
use fintech_nova_pay.Fraud.Entity.{
  FraudDecisionState, approved, review, blocked, action_required, FraudEvaluationContext,
  RiskDecision,
}
use fintech_nova_pay.Fraud.Store.{FraudStore, FraudDb}
use fintech_nova_pay.Fraud.Rules.{
  Row, all_rules_timeout_synthetic, error_result, rule_large_transaction, invalid_amount_result,
  raised,
}
use fintech_nova_pay.Fraud.Velocity.{rule_velocity}
use fintech_nova_pay.Fraud.Aggregate.{rank, contribution, aggregate, fold_decision}
use fintech_nova_pay.Fraud.Engine.{Schedule, Outcome, evaluate_all}
use fintech_nova_pay.Fraud.Decision.{aggregate-worst, NoWorse, rank_injective, rank_at_most}
use fintech_nova_pay.Fraud.Evaluation.{Decided, evaluate-Decided, large_row, evaluate_all-cases}
use fintech_nova_pay.Fraud.Service.{evaluate_synchronously}

-- A row that contributes `BLOCKED` decides.
blocked_by :
    (d : FraudDecisionState) (r : Row) → contribution r ≡ blocked → NoWorse d r → d ≡ blocked
blocked_by d r c n =
    let top : rank (contribution r) ≡ 4 = ap rank c in
    rank_injective d blocked (omega (arith, n, top, rank_at_most d))

at_least_action : (d : FraudDecisionState) → 3 ≤ rank d → (d ≡ action_required) ⊎ (d ≡ blocked)
at_least_action approved h = absurd (omega (arith, h))
at_least_action review h = absurd (omega (arith, h))
at_least_action action_required h = inl refl
at_least_action blocked h = inr refl

module _ (S : FraudStore) where
  open S use {decisions as D, floats as F}

  -- What keeps the engine from vouching for a payment.
  pub data Uncertain (schedule : Schedule) (ctx : FraudEvaluationContext) (db : FraudDb S)
      : Type 0 where
    over_budget : schedule.timed_out ≡ true → Uncertain schedule ctx db
    no_redis : S.redis_enabled ≡ false → Uncertain schedule ctx db
    unreadable : F.parse_float ctx.amount ≡ none → Uncertain schedule ctx db
    thrown :
        (e : Exception) → (evaluate_all S schedule ctx db).0 ≡ err e → Uncertain schedule ctx db

  synthetic-blocked :
      (t : Bool) → (aggregate all_rules_timeout_synthetic t).final_decision ≡ blocked
  unfolding aggregate all_rules_timeout_synthetic fold_decision error_result
  synthetic-blocked t = refl

  velocity-no_redis :
      (schedule : Schedule) (ctx : FraudEvaluationContext) (db : FraudDb S) {a : Row}
      → S.redis_enabled ≡ false
      → (rule_velocity S (schedule.run 0) ctx db.keys).0 ≡ ok a
      → contribution a ≡ blocked
  unfolding rule_velocity error_result
  velocity-no_redis schedule ctx db n h = ground (arith, n, h)

  large-unreadable :
      (schedule : Schedule) (ctx : FraudEvaluationContext)
      → F.parse_float ctx.amount ≡ none
      → contribution (large_row S schedule ctx) ≡ blocked
  unfolding rule_large_transaction invalid_amount_result error_result
  large-unreadable schedule ctx n = ground (arith, n)

  -- Every row of an outcome is at most as bad as the decision.
  outcome-NoWorse :
      (o : Outcome) (d : FraudDecisionState) {rs : List Row}
      → Decided S (ok o) d
      → o.results ≡ rs
      → All (NoWorse d) rs
  outcome-NoWorse o d {rs} is rows =
      subst (λ x. All (NoWorse x) rs) (sym is)
        (subst (λ rs. All (NoWorse (aggregate o.results o.timed_out).final_decision) rs) rows
          (aggregate-worst o.results o.timed_out).0)

  outcome-blocked :
      (schedule : Schedule) (ctx : FraudEvaluationContext) (db : FraudDb S) (o : Outcome)
      (d : FraudDecisionState)
      → (evaluate_all S schedule ctx db).0 ≡ ok o
      → Decided S (ok o) d
      → Uncertain schedule ctx db
      → d ≡ blocked
  outcome-blocked schedule ctx db o d x is u = elim (evaluate_all-cases S schedule ctx db x) [
    | inl rows ↦
        is
        ∙ ap (λ rs. (aggregate rs o.timed_out).final_decision) rows
        ∙ synthetic-blocked o.timed_out
    | inr (t, (a, rest, v, rows)) ↦
        let all = outcome-NoWorse o d is rows in
        elim u [
          | over_budget b ↦ absurd (ground (arith, t, b))
          | no_redis n ↦ blocked_by d a (velocity-no_redis schedule ctx db n v) all.0
          | unreadable n ↦
              blocked_by d (large_row S schedule ctx) (large-unreadable schedule ctx n) all.1.0
          | thrown e y ↦ absurd (ground (arith, x, y))
        ]
  ]

  -- An evaluation that runs over its budget, lacks Redis, cannot read the amount, or has an engine
  -- that throws, decides `BLOCKED` if it returns.
  pub evaluate-fail_closed :
      (now : ℕ) (schedule : Schedule) (ctx : FraudEvaluationContext) (db : FraudDb S)
      {d : RiskDecision} {db' : FraudDb S}
      → Uncertain schedule ctx db
      → evaluate_synchronously S now schedule ctx db ≡ (ok d, db')
      → d.final_decision ≡ blocked
  evaluate-fail_closed now schedule ctx db {d} {db'} u h =
      let decided = evaluate-Decided S now schedule ctx db {d = d} {db' = db'} h in
      elim (Result-cases (evaluate_all S schedule ctx db).0) [
        | inr (e, x) ↦ subst (λ r. Decided S r d.final_decision) x decided
        | inl (o, x) ↦
            outcome-blocked schedule ctx db o d.final_decision x
              (subst (λ r. Decided S r d.final_decision) x decided) u
      ]

  -- The row of a large amount asks for an action, or blocks when the amount is not a finite float.
  large-raised :
      (schedule : Schedule) (ctx : FraudEvaluationContext) {v : ℕ}
      → parse_scaled_amount ctx.amount ≡ ok (pos v)
      → 10000 * 10000 < v
      → 3 ≤ rank (contribution (large_row S schedule ctx))
  unfolding rule_large_transaction raised
  large-raised schedule ctx {v} p h = elim (Option-cases (F.parse_float ctx.amount)) [
    | inl n ↦ let worst = ap rank (large-unreadable schedule ctx n) in omega (arith, worst)
    | inr (x, read) ↦
        let over = F.exceeds-parse_float ctx.amount 10000 p read (omega arith) in
        let big : ltb (10000 * 10000) v ≡ true = ground (arith, h) in
        let raises : contribution (large_row S schedule ctx) ≡ action_required =
          ground (arith, read, over, big) in
        let third = ap rank raises in omega (arith, third)
  ]

  -- An amount above 10,000 is never approved nor left to a review: the decision asks for an action
  -- of the user, or is `BLOCKED`.
  pub evaluate-large :
      (now : ℕ) (schedule : Schedule) (ctx : FraudEvaluationContext) (db : FraudDb S) {v : ℕ}
      {d : RiskDecision} {db' : FraudDb S}
      → parse_scaled_amount ctx.amount ≡ ok (pos v)
      → 10000 * 10000 < v
      → evaluate_synchronously S now schedule ctx db ≡ (ok d, db')
      → (d.final_decision ≡ action_required) ⊎ (d.final_decision ≡ blocked)
  evaluate-large now schedule ctx db {v} {d} {db'} p big h =
      let decided = evaluate-Decided S now schedule ctx db {d = d} {db' = db'} h in
      elim (Result-cases (evaluate_all S schedule ctx db).0) [
        | inr (e, x) ↦ inr (subst (λ r. Decided S r d.final_decision) x decided)
        | inl (o, x) ↦
            let is = subst (λ r. Decided S r d.final_decision) x decided in
            elim (evaluate_all-cases S schedule ctx db x) [
              | inl rows ↦ inr (
                  is
                  ∙ ap (λ rs. (aggregate rs o.timed_out).final_decision) rows
                  ∙ synthetic-blocked o.timed_out)
              | inr (t, (a, rest, v', rows)) ↦
                  let all = outcome-NoWorse o d.final_decision is rows in
                  let rank_3 = large-raised schedule ctx p big in
                  at_least_action d.final_decision (omega (arith, all.1.0, rank_3))
            ]
      ]
