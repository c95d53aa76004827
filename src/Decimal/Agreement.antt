-- ===== src/Decimal/Agreement.antt =====
-- The loan parser against the pattern of the ledger's parsers.
use fintech_nova_pay.Common.{
  ℕ, ℕ, ◌≡◌, refl, ◌∙◌, inl, inr, true, false, ◌&&◌, none, some, [], ◌∷◌, ◌++◌, leb, ◌==◌,
  Option-cases, length, all, arith,
}
use fintech_nova_pay.Common.Int.{ℤ, pos}
use fintech_nova_pay.Common.Result.{ok}
use fintech_nova_pay.Common.Text.{Text, is_digit, is_empty, trim}
use fintech_nova_pay.Decimal.{
  scaled, parse_scaled_amount, parse_scaled_decimal, scale_amount, before_point, second_part,
  or_zero, parse_amount_to_big_int4,
}
use fintech_nova_pay.Decimal.Pattern.{span_digits, match_decimal, match_signed}
use fintech_nova_pay.Decimal.Digits.{Shape, match_decimal-Shape}

pub before_point-digits : (ds : Text) → all is_digit ds ≡ true → before_point ds ≡ ds
unfolding before_point
before_point-digits [] h = refl
before_point-digits (c ∷ ds) h = ground (arith, before_point-digits ds)

pub before_point-point : (ds s : Text) → all is_digit ds ≡ true → before_point (ds ++ b'.' ∷ s) ≡ ds
unfolding before_point
before_point-point [] s h = refl
before_point-point (c ∷ ds) s h = ground (arith, before_point-point ds s)

second_part-digits : (ds : Text) → all is_digit ds ≡ true → second_part ds ≡ []
unfolding second_part
second_part-digits [] h = refl
second_part-digits (c ∷ ds) h = ground (arith, second_part-digits ds)

pub second_part-point :
    (ds s : Text) → all is_digit ds ≡ true → second_part (ds ++ b'.' ∷ s) ≡ before_point s
unfolding second_part
second_part-point [] s h = refl
second_part-point (c ∷ ds) s h = ground (arith, second_part-point ds s)

-- The loan parser by the parts that it splits off.
pub parse_amount-parts :
    (amount ds fs : Text)
    → before_point (trim amount) ≡ ds
    → second_part (trim amount) ≡ fs
    → all is_digit ds ≡ true
    → is_empty ds ≡ false
    → (all is_digit fs && leb (length fs) 4) ≡ true
    → parse_amount_to_big_int4 amount ≡ ok (pos (scaled ds fs))
unfolding parse_amount_to_big_int4 or_zero
parse_amount-parts amount ds fs p q d n k = rw (p, q) (rw (n, d) (ground arith))

parse_amount-Shape :
    (amount ds fs : Text)
    → Shape (trim amount) ds fs
    → parse_amount_to_big_int4 amount ≡ ok (pos (scaled ds fs))
parse_amount-Shape amount ds fs m = elim m.text [
  | inl (e, z) ↦
      parse_amount-parts amount ds fs (rw e (before_point-digits ds m.digits))
        (rw (e, z) (second_part-digits ds m.digits)) m.digits m.some_digit m.fraction
  | inr e ↦
      parse_amount-parts amount ds fs (rw e (before_point-point ds fs m.digits))
        (rw e (second_part-point ds fs m.digits ∙ before_point-digits fs (ground arith))) m.digits
        m.some_digit m.fraction
]

parsed_by_pattern :
    (t : Text) {v : ℤ}
    → parse_scaled_amount t ≡ ok v
    → (i : Text) × (f : Text) × (match_decimal (trim t) ≡ some (i, f)) × (v ≡ pos (scaled i f))
unfolding parse_scaled_amount
parsed_by_pattern t h = elim (Option-cases (match_decimal (trim t))) [
  | inl e ↦ cc (rw (e, parse_scaled_amount) at h)
  | inr ((i, f), e) ↦ (i, f, e, ground arith)
]

match_decimal-minus : (s : Text) (c : ℕ) → (c == b'-') ≡ true → match_decimal (c ∷ s) ≡ none
unfolding match_decimal span_digits
match_decimal-minus s c h = ground arith

no_digit : {x : Text × Text} → match_decimal [] ≡ some x → none ≡ some x
unfolding match_decimal span_digits
no_digit h = h

match_signed-match_decimal :
    (s : Text) {i f : Text} → match_decimal s ≡ some (i, f) → match_signed s ≡ some (false, i, f)
unfolding match_signed
match_signed-match_decimal [] h = cc (no_digit h)
match_signed-match_decimal (c ∷ s) {i} {f} h = ground (arith, match_decimal-minus s c)

-- An amount that the ledger accepts means the same number to the accounts, the loans and the
-- payroll.
pub parsers_agree :
    (t : Text) {v : ℤ}
    → parse_scaled_amount t ≡ ok v
    → (parse_scaled_decimal t ≡ ok v)
      × (parse_amount_to_big_int4 t ≡ ok v)
      × (scale_amount t ≡ ok v)
unfolding parse_scaled_decimal scale_amount
parsers_agree t h =
    let (i, f, e, x) = parsed_by_pattern t h in
    (
      ground (arith, match_signed-match_decimal (trim t) e),
      rw x (parse_amount-Shape t i f (match_decimal-Shape (trim t) e)),
      ground arith,
    )
