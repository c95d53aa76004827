-- ===== src/Tests/Columns.antt =====
-- Amounts as a column of type numeric(19,4) gives them back, with four places.
use fintech_nova_pay.Common.{◌≡◌, inl, inr, Option-cases, arith}
use fintech_nova_pay.Common.Int.{ℤ}
use fintech_nova_pay.Common.Result.{Result, ok, err}
use fintech_nova_pay.Common.Text.{Text, trim}
use fintech_nova_pay.Decimal.{
  scaled, parse_scaled_amount, parse_amount_to_big_int4, format_big_int_amount4,
}
use fintech_nova_pay.Decimal.Pattern.{match_decimal}
use fintech_nova_pay.Decimal.LoanAmounts.{parse_amount_to_big_int4-format}

abbrev printed : Text → Result ℤ → Text
printed s (ok v) = format_big_int_amount4 v
printed s (err e) = s

abbrev pub four_places : Text → Text
four_places s = printed s (parse_scaled_amount s)

pub four_places-value :
    (s : Text) {v : ℤ}
    → parse_scaled_amount s ≡ ok v
    → parse_amount_to_big_int4 (four_places s) ≡ ok v
unfolding parse_scaled_amount
four_places-value s {v} h = elim (Option-cases (match_decimal (trim s))) [
  | inl m ↦ absurd (ground (arith, m, h))
  | inr ((i, f), m) ↦
      let back = parse_amount_to_big_int4-format (scaled i f) in ground (arith, m, h, back)
]
