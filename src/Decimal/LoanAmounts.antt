-- ===== src/Decimal/LoanAmounts.antt =====
-- The printer, the comparison and the subtraction of loans/utils/loan-money.util.ts.
use fintech_nova_pay.Common.{
  ℕ, ◌-◌, ◌≤◌, ◌<◌, ◌/◌, ◌%◌, ◌≡◌, refl, ◌∙◌, true, [], ◌∷◌, ◌++◌, leb, length, take, all, arith,
}
use fintech_nova_pay.Common.Int.{pos, ◌-ℤ◌}
use fintech_nova_pay.Common.Result.{ok, err, plain_error}
use fintech_nova_pay.Common.Text.{Text, is_digit, trim, to_string, pad_start, big_int}
use fintech_nova_pay.Common.Text.Laws.{
  trim_lem, all-to_string, is_empty-to_string, big_int-to_string, pad_start-reads_as,
}
use fintech_nova_pay.Decimal.{
  scaled, parse_amount_to_big_int4, format_big_int_amount4, subtract_amount4,
}
use fintech_nova_pay.Decimal.Digits.{ink-point}
use fintech_nova_pay.Decimal.Agreement.{
  before_point-digits, before_point-point, second_part-point, parse_amount-parts,
}

parse-printed :
    (v : ℕ) (fs : Text)
    → big_int (take 4 (fs ++ 48 ∷ 48 ∷ 48 ∷ 48 ∷ [])) ≡ v % 10000
    → all is_digit fs ≡ true
    → leb (length fs) 4 ≡ true
    → parse_amount_to_big_int4 (to_string (v / 10000) ++ b'.' ∷ fs) ≡ ok (pos v)
unfolding scaled
parse-printed v fs value digits short =
    let whole = to_string (v / 10000) in
    let ds = all-to_string (v / 10000) in
    let clean : trim (whole ++ b'.' ∷ fs) ≡ whole ++ b'.' ∷ fs =
      trim_lem _ (ink-point whole fs ds digits) in
    let same : scaled whole fs ≡ v = omega (arith, big_int-to_string (v / 10000), value) in
    parse_amount-parts (whole ++ b'.' ∷ fs) whole fs (rw clean (before_point-point whole fs ds))
      (rw clean (second_part-point whole fs ds ∙ before_point-digits fs digits)) ds
      (is_empty-to_string _) (ground arith)
    ∙ rw same refl

-- An amount of zero or more that the loans print is read back as the same number.
pub parse_amount_to_big_int4-format :
    (n : ℕ) → parse_amount_to_big_int4 (format_big_int_amount4 (pos n)) ≡ ok (pos n)
unfolding format_big_int_amount4
parse_amount_to_big_int4-format n =
    let table = pad_start-reads_as (n % 10000) (omega arith) in
    parse-printed n (pad_start 4 (to_string (n % 10000))) (ground arith) (ground arith)
      (ground arith)

-- The outstanding amount after a repayment that it covers is exactly the difference, and a larger
-- repayment is refused.
pub subtract_amount4_exact :
    (from delta : Text) {x y : ℕ}
    → parse_amount_to_big_int4 from ≡ ok (pos x)
    → parse_amount_to_big_int4 delta ≡ ok (pos y)
    → (y ≤ x
        → (r : Text) × (subtract_amount4 from delta ≡ ok r)
          × (parse_amount_to_big_int4 r ≡ ok (pos (x - y))))
      × (x < y → subtract_amount4 from delta ≡ err (plain_error "Negative outstanding"))
unfolding subtract_amount4 ◌-ℤ◌
subtract_amount4_exact from delta {x} {y} p q = (
  λ h.
      (format_big_int_amount4 (pos (x - y)), ground arith, parse_amount_to_big_int4-format (x - y)),
  λ h. ground arith,
)
