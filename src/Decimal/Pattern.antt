-- ===== src/Decimal/Pattern.antt =====
-- The regular expressions `^(\d+)(?:\.(\d{0,4}))?$` and `^(-?)(\d+)(?:\.(\d{0,4}))?$`, by their
-- groups. No digit is a point, so there is one way to match.
use fintech_nova_pay.Common.{
  Bool, true, false, ◌&&◌, Option, none, some, [], ◌∷◌, leb, ◌==◌, if◌then◌else◌, length, all,
}
use fintech_nova_pay.Common.Text.{Text, is_digit, is_empty}

unfoldable pub span_digits : Text → Text × Text
span_digits [] = ([], [])
span_digits (c ∷ s) =
    let (digits, rest) = span_digits s in if is_digit c then (c ∷ digits, rest) else ([], c ∷ s)

unfoldable pub match_fraction : Text → Text → Option (Text × Text)
match_fraction int_part [] = some (int_part, [])
match_fraction int_part (c ∷ s) =
    if c == b'.' && (all is_digit s && leb (length s) 4) then some (int_part, s) else none

unfoldable pub match_decimal : Text → Option (Text × Text)
unfolding span_digits match_fraction
match_decimal s =
    let (digits, rest) = span_digits s in
    if is_empty digits then none else match_fraction digits rest

abbrev pub with_sign : Bool → Option (Text × Text) → Option (Bool × Text × Text)
with_sign minus none = none
with_sign minus (some (int_part, frac_raw)) = some (minus, int_part, frac_raw)

unfoldable pub match_signed : Text → Option (Bool × Text × Text)
unfolding match_decimal
match_signed [] = none
match_signed (c ∷ s) =
    if c == b'-' then with_sign true (match_decimal s) else with_sign false (match_decimal (c ∷ s))
