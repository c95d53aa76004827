-- ===== src/Decimal.antt =====
-- Decimal texts and the integers scaled by 10,000 that they stand for: the parsers and printers of
-- ledger/service/posting.service.ts, accounts/service/accounts.service.ts,
-- loans/utils/loan-money.util.ts and payroll/service (under nova-pay/src/modules).
pub mod Pattern
mod Digits
pub mod RoundTrip
pub mod Agreement
pub mod LoanAmounts
use Pattern.{match_decimal, match_signed}
use fintech_nova_pay.Common.{
  ℕ, suc, ◌+◌, ◌*◌, ◌/◌, ◌%◌, Bool, true, false, not, ◌||◌, Option, none, some, [], ◌∷◌, ◌++◌, ltb,
  ◌==◌, if◌then◌else◌, length, take, all,
}
use fintech_nova_pay.Common.Int.{ℤ, pos, negsuc, ◌-ℤ◌, negate, ltb_ℤ}
use fintech_nova_pay.Common.Result.{
  Result, ok, err, bad_request, plain_error, ◌>>=◌, ◌>>◌, throw_if,
}
use fintech_nova_pay.Common.Text.{
  Text, is_digit, is_empty, trim, to_string, big_int, pad_start, strip_zeros,
}

-- `(fracRaw + '0000').slice(0, 4)` read as a number, behind the scaled integer part.
unfoldable pub scaled : Text → Text → ℕ
unfolding big_int
scaled int_part frac_raw =
    big_int int_part * 10000 + big_int (take 4 (frac_raw ++ 48 ∷ 48 ∷ 48 ∷ 48 ∷ []))

unfoldable pub parse_scaled_amount : Text → Result ℤ
parse_scaled_amount amount = elim (match_decimal (trim amount)) [
  | none ↦ err (bad_request "Invalid amount")
  | some (int_part, frac_raw) ↦ ok (pos (scaled int_part frac_raw))
]

unfoldable pub parse_scaled_balance_field : Text → Result ℤ
parse_scaled_balance_field s = elim (match_signed (trim s)) [
  | none ↦ err (bad_request "Invalid decimal")
  | some (minus, int_part, frac_raw) ↦
      ok (if minus then negate (pos (scaled int_part frac_raw)) else pos (scaled int_part frac_raw))
]

-- The accounts service has a copy of its own, with another message.
unfoldable pub parse_scaled_decimal : Text → Result ℤ
parse_scaled_decimal s = elim (match_signed (trim s)) [
  | none ↦ err (bad_request "Invalid decimal amount")
  | some (minus, int_part, frac_raw) ↦
      ok (if minus then negate (pos (scaled int_part frac_raw)) else pos (scaled int_part frac_raw))
]

-- So has the payroll validation.
unfoldable pub scale_amount : Text → Result ℤ
scale_amount s = elim (match_decimal (trim s)) [
  | none ↦ err (bad_request "Invalid decimal amount")
  | some (int_part, frac_raw) ↦ ok (pos (scaled int_part frac_raw))
]

format_magnitude : ℕ → Text
format_magnitude v =
    let int_part = v / 10000 in
    let frac_str = strip_zeros (pad_start 4 (to_string (v % 10000))) in
    if is_empty frac_str then to_string int_part else to_string int_part ++ b'.' ∷ frac_str

unfoldable pub format_scaled_decimal : ℤ → Text
unfolding format_magnitude
format_scaled_decimal (pos v) = format_magnitude v
format_scaled_decimal (negsuc n) = b'-' ∷ format_magnitude (suc n)

-- `split('.')`: the text before the first point, and the text up to the next one, or '' if none.
unfoldable pub before_point : Text → Text
before_point [] = []
before_point (c ∷ s) = let rest = before_point s in if c == b'.' then [] else c ∷ rest

unfoldable pub second_part : Text → Text
unfolding before_point
second_part [] = []
second_part (c ∷ s) = let rest = second_part s in if c == b'.' then before_point s else rest

unfoldable pub or_zero : Text → Text
or_zero s = if is_empty s then b'0' ∷ [] else s

unfoldable pub parse_amount_to_big_int4 : Text → Result ℤ
parse_amount_to_big_int4 amount =
    let trimmed = trim amount in
    let whole = or_zero (before_point trimmed) in
    let frac_raw = second_part trimmed in
    do
      throw_if (not (all is_digit whole)) (plain_error "Invalid amount")
      throw_if (ltb 4 (length frac_raw) || not (all is_digit frac_raw))
          (plain_error "Invalid amount fractional part")
      ok (pos (scaled whole frac_raw))

format_magnitude4 : ℕ → Text
format_magnitude4 v = to_string (v / 10000) ++ b'.' ∷ pad_start 4 (to_string (v % 10000))

unfoldable pub format_big_int_amount4 : ℤ → Text
unfolding format_magnitude4
format_big_int_amount4 (pos v) = format_magnitude4 v
format_big_int_amount4 (negsuc n) = b'-' ∷ format_magnitude4 (suc n)

unfoldable pub amount_gte4 : Text → Text → Result Bool
amount_gte4 a b = do
  x ← parse_amount_to_big_int4 a
  y ← parse_amount_to_big_int4 b
  ok (not (ltb_ℤ x y))

unfoldable pub subtract_amount4 : Text → Text → Result Text
subtract_amount4 from delta = do
  x ← parse_amount_to_big_int4 from
  y ← parse_amount_to_big_int4 delta
  throw_if (ltb_ℤ (x -ℤ y) (pos 0)) (plain_error "Negative outstanding")
  ok (format_big_int_amount4 (x -ℤ y))
