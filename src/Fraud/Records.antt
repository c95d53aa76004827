-- ===== src/Fraud/Records.antt =====
-- What an evaluation and a resolution leave in the tables and the outbox.
use fintech_nova_pay.Common.{
  ℕ, suc, ◌+◌, ◌≡◌, refl, ◌∙◌, ap, ◌==◌, ==-self, length, length-append, inl, inr, Bool, true,
  false, Option, some, List, map, Bool-cases, Option-cases, arith,
}
use fintech_nova_pay.Common.Result.{ok, err, bad_request, Result-cases}
use fintech_nova_pay.Common.Action.{transaction-eq-ok}
use fintech_nova_pay.Common.Text.{Text}
use fintech_nova_pay.Outbox.Entity.{Value}
use fintech_nova_pay.Outbox.Enqueue.{enqueue_in_transaction}
use fintech_nova_pay.Ledger.Store.{Inserted-cases}
use fintech_nova_pay.Fraud.Entity.{
  FraudDecisionState, approved, review, blocked, action_required, FraudEvaluationContext,
  RiskDecision,
}
use fintech_nova_pay.Fraud.Store.{
  FraudStore, FraudDb, decision_with_id, reread_decision, enqueue_fraud_event,
}
use fintech_nova_pay.Fraud.Rules.{Row}
use fintech_nova_pay.Fraud.Aggregate.{FraudAggregateSnapshot, aggregate, catastrophic_rule_rows}
use fintech_nova_pay.Fraud.Engine.{
  Schedule, run_rules, evaluate_all, after_evaluate_side_effects, register_known_device_if_present,
  bump_hour_histogram,
}
use fintech_nova_pay.Fraud.Service.{
  with_metadata, decision_props, signal_props, save_decision_and_signals,
  persist_risk_decision_and_signals, side_effects, evaluate_synchronously, decision_event, resolved,
  is_resolvable, resolve_row, flag_resolved, resolve_in_transaction, resolve_risk_decision,
}

-- How many events a decision is announced with.
abbrev pub announcements : FraudDecisionState → ℕ
announcements approved = 0
announcements _ = 1

resolved-id : (now : ℕ) (row : RiskDecision) → (resolved now row).id ≡ row.id
unfolding resolved
resolved-id now row = refl

resolved-decision :
    (now : ℕ) (row : RiskDecision) → is_resolvable (resolved now row).final_decision ≡ false
unfolding resolved
resolved-decision now row = refl

module _ (S : FraudStore) where
  open S use {decisions as D, signals as G}

  decision_event-length :
      (now : ℕ) (saved : RiskDecision) (d : FraudDecisionState) (db : FraudDb S)
      → length (decision_event S now saved d db).outbox ≡ length db.outbox + announcements d
  unfolding decision_event enqueue_fraud_event enqueue_in_transaction
  decision_event-length now saved approved db = omega arith
  decision_event-length now saved review db = length-append db.outbox _
  decision_event-length now saved blocked db = length-append db.outbox _
  decision_event-length now saved action_required db = length-append db.outbox _

  decision_event-decisions :
      (now : ℕ) (saved : RiskDecision) (d : FraudDecisionState) (db : FraudDb S)
      → (decision_event S now saved d db).decisions ≡ db.decisions
  unfolding decision_event enqueue_fraud_event
  decision_event-decisions now saved approved db = refl
  decision_event-decisions now saved review db = refl
  decision_event-decisions now saved blocked db = refl
  decision_event-decisions now saved action_required db = refl

  -- The decision stands under its identifier, its amount in the column's spelling, and has been
  -- announced.
  abbrev pub Recorded : RiskDecision → FraudDb S → FraudDb S → Type 0
  Recorded d db db' =
      (D.table.find d.id db'.decisions ≡ some (reread_decision D.column d))
      × (length db'.outbox ≡ length db.outbox + announcements d.final_decision)

  persist-Recorded :
      (now : ℕ) (ctx : FraudEvaluationContext) (rs : List Row) (a : FraudAggregateSnapshot)
      (db : FraudDb S) {d : RiskDecision} {db' : FraudDb S}
      → persist_risk_decision_and_signals S now ctx rs a db ≡ (ok d, db')
      → Recorded d db db'
  unfolding persist_risk_decision_and_signals save_decision_and_signals
  persist-Recorded now ctx rs a db {d} {db'} h =
      let run =
        transaction-eq-ok (save_decision_and_signals S now ctx rs a) db {a = d} {s' = db'} h in
      elim (Inserted-cases (D.insert (decision_props ctx a) db.decisions)) [
        | inl (i, t, s) ↦
            elim (Result-cases (G.save_all (map (signal_props ctx i) rs) db.signals)) [
              | inl (g, e) ↦
                  let saved = decision_with_id i (decision_props ctx a) in
                  let there = D.insert-find (decision_props ctx a) db.decisions s in
                  let put : FraudDb S = record db { decisions = t; signals = g } in
                  let more = decision_event-length now saved saved.final_decision put in
                  let same = decision_event-decisions now saved saved.final_decision put in
                  (ground (arith, s, e, run, there, same), ground (arith, s, e, run, more))
              | inr (x, e) ↦ absurd (ground (arith, s, e, run))
            ]
        | inr (inl (t, s)) ↦ absurd (ground (arith, s, run))
        | inr (inr s) ↦ absurd (ground (arith, s, run))
      ]

  evaluate_all-outbox :
      (schedule : Schedule) (ctx : FraudEvaluationContext) (db : FraudDb S)
      → (evaluate_all S schedule ctx db).1.outbox ≡ db.outbox
  unfolding evaluate_all run_rules
  evaluate_all-outbox schedule ctx db = elim (Bool-cases schedule.timed_out) [
    | inl t ↦ ground (arith, t)
    | inr t ↦ elim (Result-cases (run_rules S schedule.run ctx db).0) [
      | inl (rs, x) ↦ ground (arith, t, x)
      | inr (e, x) ↦ ground (arith, t, x)
    ]
  ]

  register-outbox :
      (now : ℕ) (ctx : FraudEvaluationContext) (db : FraudDb S)
      → (register_known_device_if_present S now ctx db).1.outbox ≡ db.outbox
  unfolding register_known_device_if_present
  register-outbox now ctx db = ground arith

  bump-outbox :
      (now : ℕ) (ctx : FraudEvaluationContext) (db : FraudDb S)
      → (bump_hour_histogram S now ctx db).1.outbox ≡ db.outbox
  unfolding bump_hour_histogram
  bump-outbox now ctx db = ground arith

  side_effects-outbox :
      (now : ℕ) (ctx : FraudEvaluationContext) (timed_out : Bool) (a : FraudAggregateSnapshot)
      (db : FraudDb S)
      → (side_effects S now ctx timed_out a db).1.outbox ≡ db.outbox
  unfolding side_effects after_evaluate_side_effects
  side_effects-outbox now ctx true a db = refl
  side_effects-outbox now ctx false a db =
      let device = register_known_device_if_present S now ctx db in
      let hour = bump_hour_histogram S now ctx device.1 in
      let same = bump-outbox now ctx device.1 ∙ register-outbox now ctx db in
      elim (Result-cases device.0) [
        | inr (e, x) ↦ ground (arith, x, same)
        | inl (u, x) ↦ elim (Result-cases hour.0) [
          | inr (e, y) ↦ ground (arith, x, y, same)
          | inl (v, y) ↦ ground (arith, x, y, same)
        ]
      ]

  -- An evaluation that returns has stored its decision under the decision's identifier, its amount in
  -- the column's spelling, and has put one event in the outbox, or none when it approves.
  pub evaluate-Recorded :
      (now : ℕ) (schedule : Schedule) (ctx : FraudEvaluationContext) (db : FraudDb S)
      {d : RiskDecision} {db' : FraudDb S}
      → evaluate_synchronously S now schedule ctx db ≡ (ok d, db')
      → Recorded d db db'
  unfolding evaluate_synchronously
  evaluate-Recorded now schedule ctx db {d} {db'} h =
      let engine = evaluate_all S schedule ctx db in
      let quiet = ap length (evaluate_all-outbox schedule ctx db) in
      elim (Result-cases engine.0) [
        | inr (e, x) ↦
            let rows = catastrophic_rule_rows e in
            let a =
              with_metadata (aggregate rows false) ("failClosed", Value.word "CATASTROPHIC") in
            let done =
              persist-Recorded now ctx rows a engine.1 {d = d} {db' = db'} (ground (arith, x, h)) in
            (done.0, omega (arith, done.1, quiet))
        | inl (o, x) ↦
            let rest =
              side_effects S now ctx o.timed_out (aggregate o.results o.timed_out) engine.1 in
            let done =
              persist-Recorded now ctx o.results rest.0 rest.1 {d = d} {db' = db'}
                (ground (arith, x, h)) in
            let still = ap length (
              side_effects-outbox now ctx o.timed_out (aggregate o.results o.timed_out) engine.1) in
            (done.0, omega (arith, done.1, still, quiet))
      ]

  -- The row that a resolution has found, and what it has left.
  abbrev pub Resolved : ℕ → ℕ → RiskDecision → FraudDb S → FraudDb S → Type 0
  Resolved now id d db db' =
      (row : RiskDecision) × (D.table.find id db.decisions ≡ some row)
      × (is_resolvable row.final_decision ≡ true)
      × (d ≡ resolved now row)
      × (D.table.find id db'.decisions ≡ some d)
      × (length db'.outbox ≡ suc (length db.outbox))

  flag_resolved-length :
      (now : ℕ) (remark : Option Text) (previous : FraudDecisionState) (saved : RiskDecision)
      (db : FraudDb S)
      → length (flag_resolved S now remark previous saved db).outbox ≡ suc (length db.outbox)
  unfolding flag_resolved enqueue_fraud_event enqueue_in_transaction
  flag_resolved-length now remark previous saved db = length-append db.outbox _ ∙ omega arith

  flag_resolved-decisions :
      (now : ℕ) (remark : Option Text) (previous : FraudDecisionState) (saved : RiskDecision)
      (db : FraudDb S)
      → (flag_resolved S now remark previous saved db).decisions ≡ db.decisions
  unfolding flag_resolved enqueue_fraud_event
  flag_resolved-decisions now remark previous saved db = refl

  resolve_in_transaction-Resolved :
      (now id : ℕ) (remark : Option Text) (db : FraudDb S) {d : RiskDecision} {db' : FraudDb S}
      → resolve_in_transaction S now id remark db ≡ (ok d, db')
      → Resolved now id d db db'
  unfolding resolve_in_transaction resolve_row
  resolve_in_transaction-Resolved now id remark db {d} {db'} h =
      elim (Option-cases (D.table.find id db.decisions)) [
        | inl f ↦ absurd (ground (arith, f, h))
        | inr (row, f) ↦ elim (Bool-cases (is_resolvable row.final_decision)) [
          | inr b ↦ absurd (ground (arith, f, b, h))
          | inl b ↦
              let saved = resolved now row in
              let key = D.table.find-key id db.decisions f in
              let there = D.table.find-save id saved db.decisions in
              let same : (saved.id == id) ≡ true = rw (resolved-id now row, key) (==-self id) in
              let put : FraudDb S = record db { decisions = D.table.save saved db.decisions } in
              let more = flag_resolved-length now remark row.final_decision saved put in
              let kept = flag_resolved-decisions now remark row.final_decision saved put in
              (
                row,
                f,
                b,
                ground (arith, f, b, h),
                ground (arith, f, b, h, there, same, kept),
                ground (arith, f, b, h, more),
              )
        ]
      ]

  refused :
      (now id : ℕ) (remark : Option Text) (db : FraudDb S) {d : RiskDecision}
      → D.table.find id db.decisions ≡ some d
      → is_resolvable d.final_decision ≡ false
      → resolve_risk_decision S now id remark db
        ≡ (err (bad_request "Only BLOCKED or REVIEW decisions can be resolved to APPROVED"), db)
  unfolding resolve_risk_decision resolve_in_transaction resolve_row
  refused now id remark db f b = ground (arith, f, b)

  -- A resolution that returns has found a decision that was `BLOCKED` or `REVIEW`, has stored it as
  -- `APPROVED`, and has put one event in the outbox; every further resolution of it throws and
  -- changes nothing.
  pub resolve-once :
      (now id : ℕ) (remark : Option Text) (db : FraudDb S) {d : RiskDecision} {db' : FraudDb S}
      → resolve_risk_decision S now id remark db ≡ (ok d, db')
      → Resolved now id d db db'
        × ((now' : ℕ) (remark' : Option Text)
            → resolve_risk_decision S now' id remark' db' ≡ (
              err (bad_request "Only BLOCKED or REVIEW decisions can be resolved to APPROVED"),
              db',
            ))
  unfolding resolve_risk_decision
  resolve-once now id remark db {d} {db'} h =
      let done =
        resolve_in_transaction-Resolved now id remark db {d = d} {db' = db'}
          (transaction-eq-ok (resolve_in_transaction S now id remark) db {a = d} {s' = db'} h) in
      let no_more : is_resolvable d.final_decision ≡ false =
        rw (done.3) (resolved-decision now done.0) in
      (done, λ now' remark'. refused now' id remark' db' done.4 no_more)
