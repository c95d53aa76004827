-- ===== src/Decimal/RoundTrip.antt =====
-- The printer of the accounts service against its parser.
use fintech_nova_pay.Common.{
  ℕ, suc, ◌/◌, ◌%◌, ◌≡◌, inl, inr, true, false, ◌&&◌, some, [], ◌∷◌, ◌++◌, leb, Bool-cases, length,
  take, all, arith,
}
use fintech_nova_pay.Common.Int.{ℤ, pos, negsuc, negate}
use fintech_nova_pay.Common.Result.{ok}
use fintech_nova_pay.Common.Text.{
  Text, is_digit, is_empty, to_string, big_int, pad_start, strip_zeros,
}
use fintech_nova_pay.Common.Text.Laws.{
  is_ink, trim_lem, all-ink, all-to_string, is_empty-to_string, big_int-to_string, reads_as,
  strip_zeros-reads_as,
}
use fintech_nova_pay.Decimal.{scaled, parse_scaled_decimal, format_magnitude, format_scaled_decimal}
use fintech_nova_pay.Decimal.Pattern.{match_decimal, match_signed, with_sign}
use fintech_nova_pay.Decimal.Digits.{match_decimal-end, match_decimal-point, ink-point}

record Fraction (n : ℕ) (s : Text) : Type 0 where
  value : big_int (take 4 (s ++ 48 ∷ 48 ∷ 48 ∷ 48 ∷ [])) ≡ n
  shape : (all is_digit s && leb (length s) 4) ≡ true
  digits : all is_digit s ≡ true

reads_as→Fraction : (n : ℕ) (s : Text) → reads_as n s ≡ true → Fraction n s
reads_as→Fraction n s h = record {
  value = ground arith;
  shape = ground arith;
  digits = ground arith;
}

-- A printed magnitude: what the pattern finds in it stands for the number.
record Prints (v : ℕ) (s : Text) : Type 0 where
  int_part : Text
  frac_raw : Text
  matched : match_decimal s ≡ some (int_part, frac_raw)
  valued : scaled int_part frac_raw ≡ v
  ink : all is_ink s ≡ true
  unsigned : match_signed s ≡ with_sign false (match_decimal s)

match_signed-digits :
    (ds s : Text)
    → all is_digit ds ≡ true
    → is_empty ds ≡ false
    → match_signed (ds ++ s) ≡ with_sign false (match_decimal (ds ++ s))
unfolding match_signed
match_signed-digits [] s h k = cc
match_signed-digits (c ∷ ds) s h k = ground arith

match_signed-all_digits :
    (ds : Text)
    → all is_digit ds ≡ true
    → is_empty ds ≡ false
    → match_signed ds ≡ with_sign false (match_decimal ds)
unfolding match_signed
match_signed-all_digits [] h k = cc
match_signed-all_digits (c ∷ ds) h k = ground arith

Prints-point :
    (v : ℕ) (fs : Text) → Fraction (v % 10000) fs → Prints v (to_string (v / 10000) ++ b'.' ∷ fs)
unfolding scaled
Prints-point v fs f =
    let i = v / 10000 in
    record {
      int_part = to_string i;
      frac_raw = fs;
      matched =
          match_decimal-point (to_string i) (all-to_string i) (is_empty-to_string i) fs f.shape;
      valued = omega (arith, big_int-to_string i, f.value);
      ink = ink-point (to_string i) fs (all-to_string i) f.digits;
      unsigned = match_signed-digits (to_string i) _ (all-to_string i) (is_empty-to_string i);
    }

Prints-end :
    (v : ℕ) (fs : Text)
    → Fraction (v % 10000) fs
    → is_empty fs ≡ true
    → Prints v (to_string (v / 10000))
unfolding scaled big_int
Prints-end v [] f e =
    let i = v / 10000 in
    record {
      int_part = to_string i;
      frac_raw = [];
      matched = match_decimal-end (to_string i) (all-to_string i) (is_empty-to_string i);
      valued = omega (arith, big_int-to_string i, f.value);
      ink = all-ink (to_string i) (all-to_string i);
      unsigned = match_signed-all_digits (to_string i) (all-to_string i) (is_empty-to_string i);
    }
Prints-end v (c ∷ fs) f e = cc

format_magnitude-Prints : (v : ℕ) → Prints v (format_magnitude v)
unfolding format_magnitude
format_magnitude-Prints v =
    let fs = strip_zeros (pad_start 4 (to_string (v % 10000))) in
    let f : Fraction (v % 10000) fs =
      reads_as→Fraction _ fs (strip_zeros-reads_as (v % 10000) (omega arith)) in
    elim (Bool-cases (is_empty fs)) [
      | inl e ↦ rw e (Prints-end v fs f e)
      | inr e ↦ rw e (Prints-point v fs f)
    ]

parse-Prints : (v : ℕ) (s : Text) → Prints v s → parse_scaled_decimal s ≡ ok (pos v)
unfolding parse_scaled_decimal
parse-Prints v s p = ground (arith, trim_lem s p.ink, p.unsigned, p.matched, p.valued)

parse-minus :
    (n : ℕ) (s : Text) → Prints (suc n) s → parse_scaled_decimal (b'-' ∷ s) ≡ ok (negsuc n)
unfolding parse_scaled_decimal match_signed negate
parse-minus n s p = ground (arith, trim_lem (b'-' ∷ s) p.ink, p.matched, p.valued)

-- Whatever balance is stored as text is read back as the same number of ten-thousandths.
pub parse_scaled_decimal-format : (v : ℤ) → parse_scaled_decimal (format_scaled_decimal v) ≡ ok v
unfolding format_scaled_decimal
parse_scaled_decimal-format (pos v) = parse-Prints v _ (format_magnitude-Prints v)
parse_scaled_decimal-format (negsuc n) = parse-minus n _ (format_magnitude-Prints (suc n))
