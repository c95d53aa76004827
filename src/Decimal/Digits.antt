-- ===== src/Decimal/Digits.antt =====
-- How the patterns match a text of digits, a point, and a fraction.
use fintech_nova_pay.Common.{
  ◌≡◌, refl, true, false, ◌&&◌, some, [], ◌∷◌, ◌++◌, leb, length, all, arith, ◌⊎◌, inl, inr,
  Bool-cases,
}
use fintech_nova_pay.Common.Text.{Text, is_digit, is_empty}
use fintech_nova_pay.Common.Text.Laws.{is_ink, all-ink, all-append}
use mathlib.Core.List.{append-nil}
use fintech_nova_pay.Decimal.Pattern.{span_digits, match_fraction, match_decimal}

span_digits-point :
    (ds s : Text) → all is_digit ds ≡ true → span_digits (ds ++ b'.' ∷ s) ≡ (ds, b'.' ∷ s)
unfolding span_digits
span_digits-point [] s h = refl
span_digits-point (c ∷ ds) s h = ground (arith, span_digits-point ds s)

span_digits-end : (ds : Text) → all is_digit ds ≡ true → span_digits ds ≡ (ds, [])
unfolding span_digits
span_digits-end [] h = refl
span_digits-end (c ∷ ds) h = ground (arith, span_digits-end ds)

module _ (ds : Text) (h : all is_digit ds ≡ true) (some_digit : is_empty ds ≡ false) where
  pub match_decimal-end : match_decimal ds ≡ some (ds, [])
  unfolding match_decimal
  match_decimal-end = rw (span_digits-end ds h, some_digit)

  pub match_decimal-point :
      (fs : Text)
      → (all is_digit fs && leb (length fs) 4) ≡ true
      → match_decimal (ds ++ b'.' ∷ fs) ≡ some (ds, fs)
  unfolding match_decimal
  match_decimal-point fs k = rw (span_digits-point ds fs h, some_digit, k)

pub ink-point :
    (ds fs : Text)
    → all is_digit ds ≡ true
    → all is_digit fs ≡ true
    → all is_ink (ds ++ b'.' ∷ fs) ≡ true
ink-point ds fs h k = all-append is_ink ds (b'.' ∷ fs) (all-ink ds h) (all-ink fs k)

-- What a match says of the text: digits, and nothing or a point and at most four digits.
pub record Shape (s int_part frac_raw : Text) : Type 0 where
  pub text : (s ≡ int_part) × (frac_raw ≡ []) ⊎ (s ≡ int_part ++ b'.' ∷ frac_raw)
  pub digits : all is_digit int_part ≡ true
  pub some_digit : is_empty int_part ≡ false
  pub fraction : (all is_digit frac_raw && leb (length frac_raw) 4) ≡ true

span_digits-append : (s : Text) → s ≡ (span_digits s).0 ++ (span_digits s).1
unfolding span_digits
span_digits-append [] = refl
span_digits-append (c ∷ s) = ground (arith, span_digits-append s)

span_digits-digits : (s : Text) → all is_digit (span_digits s).0 ≡ true
unfolding span_digits
span_digits-digits [] = refl
span_digits-digits (c ∷ s) = ground (arith, span_digits-digits s)

match_fraction-Shape :
    (s ds rest : Text) {i f : Text}
    → s ≡ ds ++ rest
    → all is_digit ds ≡ true
    → is_empty ds ≡ false
    → match_fraction ds rest ≡ some (i, f)
    → Shape s i f
unfolding match_fraction
match_fraction-Shape s ds [] e d n h = record {
  text = inl (ground (arith, append-nil ds), ground arith);
  digits = ground arith;
  some_digit = ground arith;
  fraction = ground arith;
}
match_fraction-Shape s ds (c ∷ rest) e d n h = record {
  text = inr (ground arith);
  digits = ground arith;
  some_digit = ground arith;
  fraction = ground arith;
}

pub match_decimal-Shape : (s : Text) {i f : Text} → match_decimal s ≡ some (i, f) → Shape s i f
unfolding match_decimal
match_decimal-Shape s h = elim (Bool-cases (is_empty (span_digits s).0)) [
  | inl e ↦ cc (rw e at h)
  | inr e ↦
      match_fraction-Shape s (span_digits s).0 (span_digits s).1 (span_digits-append s)
        (span_digits-digits s) e (rw e at h)
]
