-- ===== src/Ledger/Conservation.antt =====
-- What a posting does to the money that a set of accounts holds.
use fintech_nova_pay.Common.{
  ℕ, ◌==◌, ==→eq, ◌≡◌, refl, sym, ap, ◌∙◌, inl, inr, Bool, true, false, not, ◌||◌, List, [], ◌∷◌,
  Bool-cases, &&-left, &&-right, all, arith,
}
use mathlib.Core.Path.{fun_ext}
use fintech_nova_pay.Common.Int.{ℤ, pos, ◌+ℤ◌, add-zero_ℤ, zero-add_ℤ, +ℤ_swap}
use fintech_nova_pay.Common.Result.{ok, ◌>>=◌, >>=-eq-ok, ok-injective}
use fintech_nova_pay.Common.Dict.{elem, keys, sort}
use fintech_nova_pay.Common.Table.{Table}
use fintech_nova_pay.Accounts.Entity.{Account, account_key, Currency, same_currency}
use fintech_nova_pay.Decimal.{parse_scaled_amount}
use fintech_nova_pay.Ledger.Lines.{
  Line, Deltas, add_delta, distinct, net_lines, no_deltas, signed, assert_balanced_per_currency,
}
use fintech_nova_pay.Ledger.Projection.{
  ProjectionLine, net_projection, project_all, apply_ledger_posting_projections,
}
use fintech_nova_pay.Ledger.Posting.{projection_lines}
use fintech_nova_pay.Ledger.Balance.{when, line_amount, signed_sum, balanced-signed_sum}
use fintech_nova_pay.Ledger.Netting.{currency_sum}
use fintech_nova_pay.Ledger.Projected.{value, project_all-value}

unfoldable pub sum_over : (ℕ → ℤ) → List ℕ → ℤ
sum_over f [] = pos 0
sum_over f (k ∷ ks) = f k +ℤ sum_over f ks

sum_over-add :
    (f g : ℕ → ℤ) (ks : List ℕ) → sum_over (λ k. f k +ℤ g k) ks ≡ sum_over f ks +ℤ sum_over g ks
unfolding sum_over
sum_over-add f g [] = sym (zero-add_ℤ (pos 0))
sum_over-add f g (k ∷ ks) = rw (sum_over-add f g ks) (+ℤ_swap _ _ _ _)

sum_over-zero : (ks : List ℕ) → sum_over (λ k. pos 0) ks ≡ pos 0
unfolding sum_over
sum_over-zero [] = refl
sum_over-zero (k ∷ ks) = rw (sum_over-zero ks) (zero-add_ℤ (pos 0))

==-symm : (a b : ℕ) → (a == b) ≡ (b == a)
==-symm a b = ground arith

||-right : (a b : Bool) → (a || b) ≡ false → b ≡ false
||-right a b h = ground arith

both : {P : Type 0} → true ≡ false → P
both h = cc

sum_over-missing :
    (a : ℕ) (x : ℤ) (ks : List ℕ) → elem a ks ≡ false → sum_over (λ k. when (a == k) x) ks ≡ pos 0
unfolding sum_over
sum_over-missing a x [] h = refl
sum_over-missing a x (k ∷ ks) h = elim (Bool-cases (a == k)) [
  | inl p ↦ both (rw (==-symm k a, p) at h)
  | inr p ↦ rw (p, sum_over-missing a x ks (||-right (k == a) (elem a ks) h)) (zero-add_ℤ (pos 0))
]

not-true : (b : Bool) → not b ≡ true → b ≡ false
not-true b h = ground arith

sum_over-single :
    (a : ℕ) (x : ℤ) (ks : List ℕ)
    → distinct ks ≡ true
    → elem a ks ≡ true
    → sum_over (λ k. when (a == k) x) ks ≡ x
unfolding sum_over distinct
sum_over-single a x [] d h = cc
sum_over-single a x (k ∷ ks) d h = elim (Bool-cases (a == k)) [
  | inl p ↦
      let missing : elem a ks ≡ false =
        rw (==→eq a k p) (not-true _ (&&-left (not (elem k ks)) (distinct ks) d)) in
      rw (p, sum_over-missing a x ks missing) (add-zero_ℤ x)
  | inr p ↦
      let there : elem a ks ≡ true = ground (arith, p, ==-symm a k) in
      rw (p, sum_over-single a x ks (&&-right (not (elem k ks)) (distinct ks) d) there)
        (zero-add_ℤ x)
]

-- All lines of a currency, account by account.
sum_over-currency_sum :
    (c : Currency) (ks : List ℕ) (es : List Line)
    → distinct ks ≡ true
    → all (λ e. elem e.account_id ks) es ≡ true
    → sum_over (λ k. currency_sum c k es) ks ≡ signed_sum c es
unfolding currency_sum signed_sum
sum_over-currency_sum c ks [] d h = sum_over-zero ks
sum_over-currency_sum c ks (e ∷ es) d h =
    sum_over-add (λ k. when (e.account_id == k) (when (same_currency e.currency c) (line_amount e)))
      (λ k. currency_sum c k es) ks
    ∙ rw (
      sum_over-single e.account_id (when (same_currency e.currency c) (line_amount e)) ks d
          (&&-left _ _ h),
      sum_over-currency_sum c ks es d (&&-right (elem e.account_id ks) _ h),
    )

pub net_projection-net_lines :
    (es : List Line) (d : Deltas) {ls : List ProjectionLine}
    → projection_lines es ≡ ok ls
    → net_projection ls d ≡ net_lines es d
unfolding projection_lines net_projection net_lines
net_projection-net_lines [] d h = rw (← ok-injective h) refl
net_projection-net_lines (e ∷ es) d h =
    let (x, p, q) = >>=-eq-ok (parse_scaled_amount e.amount) _ h in
    let (rest, r, s) = >>=-eq-ok (projection_lines es) _ q in
    rw (← ok-injective s, p)
      (ap (λ f. add_delta e.account_id e.currency (signed e.entry_type x) d >>= f)
        (fun_ext (λ d₁. net_projection-net_lines es d₁ r)))

module _ (A : Table Account account_key) where
  open A use {Rows, find}

  -- What the listed accounts hold of a currency, together.
  abbrev pub total : Currency → List ℕ → Rows → ℤ
  total c ks t = sum_over (λ k. value c (find k t)) ks

  pub projections-total :
      (c : Currency) (ks : List ℕ) (es : List Line) (t : Rows) {ls : List ProjectionLine}
      {t' : Rows}
      → distinct ks ≡ true
      → all (λ e. elem e.account_id ks) es ≡ true
      → assert_balanced_per_currency es ≡ ok tt
      → projection_lines es ≡ ok ls
      → apply_ledger_posting_projections A ls t ≡ ok t'
      → total c ks t' ≡ total c ks t
  unfolding apply_ledger_posting_projections
  projections-total c ks es t d h b p q =
      let (ds, r, s) = >>=-eq-ok (net_projection _ no_deltas) _ q in
      let (us, v, w) = >>=-eq-ok (project_all A ds (sort (keys ds.delta_by_account)) t) _ s in
      let n : net_lines es no_deltas ≡ ok ds = sym (net_projection-net_lines es no_deltas p) ∙ r in
      rw (← ok-injective w) (
        ap (λ f. sum_over f ks) (fun_ext (λ k. project_all-value A c es ds t k n v))
        ∙ sum_over-add (λ k. value c (find k t)) (λ k. currency_sum c k es) ks
        ∙ rw (sum_over-currency_sum c ks es d h, balanced-signed_sum es c b) (add-zero_ℤ _))
