-- ===== src/Fraud/Decision.antt =====
-- The aggregated decision against the rows' contributions.
use fintech_nova_pay.Common.{
  ◌≤◌, ◌≡◌, refl, sym, ◌∙◌, ap, ltb, ◌⊎◌, inl, inr, Bool, List, [], ◌∷◌, All, Bool-cases, arith,
}
use mathlib.Core.List.{Permᴰ}
use fintech_nova_pay.Fraud.Entity.{FraudDecisionState, approved, review, blocked, action_required}
use fintech_nova_pay.Fraud.Rules.{Row}
use fintech_nova_pay.Fraud.Aggregate.{rank, contribution, worse, fold_decision, aggregate}

pub rank_injective : (a b : FraudDecisionState) → rank a ≡ rank b → a ≡ b
rank_injective approved approved h = refl
rank_injective approved review h = absurd (omega (arith, h))
rank_injective approved action_required h = absurd (omega (arith, h))
rank_injective approved blocked h = absurd (omega (arith, h))
rank_injective review approved h = absurd (omega (arith, h))
rank_injective review review h = refl
rank_injective review action_required h = absurd (omega (arith, h))
rank_injective review blocked h = absurd (omega (arith, h))
rank_injective action_required approved h = absurd (omega (arith, h))
rank_injective action_required review h = absurd (omega (arith, h))
rank_injective action_required action_required h = refl
rank_injective action_required blocked h = absurd (omega (arith, h))
rank_injective blocked approved h = absurd (omega (arith, h))
rank_injective blocked review h = absurd (omega (arith, h))
rank_injective blocked action_required h = absurd (omega (arith, h))
rank_injective blocked blocked h = refl

pub rank_at_most : (d : FraudDecisionState) → rank d ≤ 4
rank_at_most approved = omega arith
rank_at_most review = omega arith
rank_at_most action_required = omega arith
rank_at_most blocked = omega arith

-- Some row contributes the decision.
abbrev pub Contributed : FraudDecisionState → List Row → Type 0
Contributed d [] = ⊥
Contributed d (r ∷ rs) = (contribution r ≡ d) ⊎ Contributed d rs

abbrev pub NoWorse : FraudDecisionState → Row → Type 0
NoWorse d r = rank (contribution r) ≤ rank d

worse-keeps : (c d : FraudDecisionState) → rank d ≤ rank (worse c d)
worse-keeps c d = elim (Bool-cases (ltb (rank d) (rank c))) [
  | inl e ↦ rw e (ground arith)
  | inr e ↦ rw e (omega arith)
]

worse-takes : (c d : FraudDecisionState) → rank c ≤ rank (worse c d)
worse-takes c d = elim (Bool-cases (ltb (rank d) (rank c))) [
  | inl e ↦ rw e (omega arith)
  | inr e ↦ rw e (ground arith)
]

worse-either : (c d : FraudDecisionState) → (worse c d ≡ c) ⊎ (worse c d ≡ d)
worse-either c d = elim (Bool-cases (ltb (rank d) (rank c))) [
  | inl e ↦ inl (rw e refl)
  | inr e ↦ inr (rw e refl)
]

fold_decision-keeps : (d : FraudDecisionState) (rs : List Row) → rank d ≤ rank (fold_decision d rs)
unfolding fold_decision
fold_decision-keeps d [] = omega arith
fold_decision-keeps d (r ∷ rs) =
    omega (arith, worse-keeps (contribution r) d, fold_decision-keeps (worse (contribution r) d) rs)

fold_decision-NoWorse :
    (d : FraudDecisionState) (rs : List Row) → All (NoWorse (fold_decision d rs)) rs
unfolding fold_decision
fold_decision-NoWorse d [] = tt
fold_decision-NoWorse d (r ∷ rs) = (
  omega (arith, worse-takes (contribution r) d, fold_decision-keeps (worse (contribution r) d) rs),
  fold_decision-NoWorse (worse (contribution r) d) rs,
)

fold_decision-Contributed :
    (d : FraudDecisionState) (rs : List Row)
    → (fold_decision d rs ≡ d) ⊎ Contributed (fold_decision d rs) rs
unfolding fold_decision
fold_decision-Contributed d [] = inl refl
fold_decision-Contributed d (r ∷ rs) =
    elim (fold_decision-Contributed (worse (contribution r) d) rs) [
      | inr c ↦ inr (inr c)
      | inl e ↦ elim (worse-either (contribution r) d) [
        | inl w ↦ inr (inl (sym w ∙ sym e))
        | inr w ↦ inl (e ∙ w)
      ]
    ]

-- The decision is at least as bad as what every row contributes, and it is `APPROVED` or what some
-- row contributes.
pub aggregate-worst :
    (rs : List Row) (timed_out : Bool)
    → All (NoWorse (aggregate rs timed_out).final_decision) rs
      × (((aggregate rs timed_out).final_decision ≡ approved)
          ⊎ Contributed (aggregate rs timed_out).final_decision rs)
unfolding aggregate
aggregate-worst rs timed_out =
    (fold_decision-NoWorse approved rs, fold_decision-Contributed approved rs)

worse_swap : (b c d : FraudDecisionState) → worse b (worse c d) ≡ worse c (worse b d)
worse_swap b c d = rank_injective (worse b (worse c d)) (worse c (worse b d)) (ground arith)

fold_decision-Perm :
    {rs ss : List Row} (d : FraudDecisionState)
    → Permᴰ rs ss
    → fold_decision d rs ≡ fold_decision d ss
unfolding fold_decision
fold_decision-Perm d Permᴰ.nil = refl
fold_decision-Perm d (Permᴰ.cons {a} {l₂ = l₂} e p) =
    fold_decision-Perm (worse (contribution a) d) p
    ∙ ap (λ r. fold_decision (worse (contribution r) d) l₂) e
fold_decision-Perm d (Permᴰ.swap {a} {b} {a' = a'} {l = l} e₁ e₂) =
    ap (λ x. fold_decision x l) (worse_swap (contribution b) (contribution a) d)
    ∙ ap (λ r. fold_decision (worse (contribution a) (worse (contribution r) d)) l) e₂
    ∙ ap (λ r. fold_decision (worse (contribution r) (worse (contribution a') d)) l) e₁
fold_decision-Perm d (Permᴰ.trans p q) = fold_decision-Perm d p ∙ fold_decision-Perm d q

-- The decision does not depend on the order of the rows.
pub aggregate-Perm :
    {rs ss : List Row} (timed_out : Bool)
    → Permᴰ rs ss
    → (aggregate rs timed_out).final_decision ≡ (aggregate ss timed_out).final_decision
unfolding aggregate
aggregate-Perm timed_out p = fold_decision-Perm approved p
