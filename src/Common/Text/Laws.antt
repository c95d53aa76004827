-- ===== src/Common/Text/Laws.antt =====
-- Trimming and digits, the printing and the reading of numbers, and the equality of texts.
use fintech_nova_pay.Common.Tests.{◌==◌, ==→eq, ltb, leb, Bool-cases}
use fintech_nova_pay.Common.Lists.{length, take, all}
use fintech_nova_pay.Common.Text.{
  Text, is_digit, is_space, is_empty, trim_start, trim_end, trim, digits_from, to_string,
  value_from, big_int, pad_start, strip_zeros, same_text,
}
use Prim.Native.Nat.{ℕ, zero, suc, ◌+◌, ◌-◌, ◌*◌, ◌/◌, ◌%◌, ◌<◌}
use mathlib.Core.Path.{◌≡◌, refl}
use mathlib.Core.Logic.{inl, inr}
use mathlib.Core.Bool.{Bool, true, false, not, ◌&&◌}
use mathlib.Core.List.{[], ◌∷◌, ◌++◌}
use native.Mathlib.Omega.{arith}

abbrev pub is_ink : ℕ → Bool
is_ink c = not (is_space c)

trim_end_lem : (s : Text) → all is_ink s ≡ true → trim_end s ≡ s
unfolding trim_end
trim_end_lem [] h = refl
trim_end_lem (c ∷ s) h = ground (arith, trim_end_lem s)

trim_start_lem : (s : Text) → all is_ink s ≡ true → trim_start s ≡ s
unfolding trim_start
trim_start_lem [] h = refl
trim_start_lem (c ∷ s) h = ground (arith, trim_start_lem s)

-- A text with no white space is left as it is.
pub trim_lem : (s : Text) → all is_ink s ≡ true → trim s ≡ s
unfolding trim
trim_lem s h = rw (trim_end_lem s h) (trim_start_lem s h)

digit-ink : (c : ℕ) → is_digit c ≡ true → is_ink c ≡ true
digit-ink c h = ground arith

pub all-ink : (s : Text) → all is_digit s ≡ true → all is_ink s ≡ true
all-ink [] h = refl
all-ink (c ∷ s) h = ground (arith, digit-ink c, all-ink s)

pub all-append :
    (p : ℕ → Bool) (s t : Text) → all p s ≡ true → all p t ≡ true → all p (s ++ t) ≡ true
all-append p [] t h k = k
all-append p (c ∷ s) t h k = ground (arith, all-append p s t)

digit-remainder : (n : ℕ) → is_digit (48 + n % 10) ≡ true
digit-remainder n = ground arith

all-digits_from : (f n : ℕ) → all is_digit (digits_from f n) ≡ true
unfolding digits_from
all-digits_from zero n = refl
all-digits_from (suc f) n = ground (
  arith,
  all-append is_digit (digits_from f (n / 10)) ((48 + n % 10) ∷ []),
  all-digits_from f (n / 10),
  digit-remainder n,
)

pub all-to_string : (n : ℕ) → all is_digit (to_string n) ≡ true
unfolding to_string
all-to_string n = all-digits_from (suc n) n

is_empty-snoc : (s : Text) (c : ℕ) → is_empty (s ++ c ∷ []) ≡ false
is_empty-snoc [] c = refl
is_empty-snoc (d ∷ s) c = refl

pub is_empty-to_string : (n : ℕ) → is_empty (to_string n) ≡ false
unfolding to_string digits_from
is_empty-to_string n = ground (arith, is_empty-snoc (digits_from n (n / 10)) (48 + n % 10))

value_from-append :
    (acc : ℕ) (s t : Text) → value_from acc (s ++ t) ≡ value_from (value_from acc s) t
unfolding value_from
value_from-append acc [] t = refl
value_from-append acc (c ∷ s) t = value_from-append (acc * 10 + _) s t

value_from-snoc :
    (acc : ℕ) (s : Text) (c : ℕ) → value_from acc (s ++ c ∷ []) ≡ value_from acc s * 10 + (c - 48)
unfolding value_from
value_from-snoc acc s c = value_from-append acc s (c ∷ [])

value-digits_from : (f n : ℕ) → n < f → value_from 0 (digits_from f n) ≡ n
unfolding digits_from value_from
value-digits_from zero n h = elim h [ ]
value-digits_from (suc f) n h = elim (Bool-cases (ltb n 10)) [
  | inl small ↦ rw small (omega arith)
  | inr large ↦ rw large (
      omega (
        arith,
        value_from-snoc 0 (digits_from f (n / 10)) (48 + n % 10),
        value-digits_from f (n / 10) (ground arith),
      ))
]

-- `BigInt(n.toString())` is `n`.
pub big_int-to_string : (n : ℕ) → big_int (to_string n) ≡ n
unfolding big_int to_string
big_int-to_string n = value-digits_from (suc n) n (omega arith)

-- What a fraction of four places prints as: digits, four at most, with the same value.
abbrev pub reads_as : ℕ → Text → Bool
reads_as n s =
    (big_int (take 4 (s ++ 48 ∷ 48 ∷ 48 ∷ 48 ∷ [])) == n) && (all is_digit s && leb (length s) 4)

-- A test that every number under a bound passes.
module _ (test : ℕ → Bool) where
  passes_under : ℕ → Bool
  passes_under zero = true
  passes_under (suc bound) = passes_under bound && test bound

  passes_under_lem : {n : ℕ} (bound : ℕ) → n < bound → passes_under bound ≡ true → test n ≡ true
  unfolding passes_under
  passes_under_lem zero less all = absurd (omega (arith, less))
  passes_under_lem {n} (suc bound) less all = ground (arith, passes_under_lem {n = n} bound)

padded_table : passes_under (λ n. reads_as n (pad_start 4 (to_string n))) 10000 ≡ true
unfolding passes_under pad_start to_string digits_from big_int
padded_table = refl

stripped_table :
    passes_under (λ n. reads_as n (strip_zeros (pad_start 4 (to_string n)))) 10000 ≡ true
unfolding passes_under pad_start to_string digits_from big_int strip_zeros
stripped_table = refl

pub pad_start-reads_as : (n : ℕ) → n < 10000 → reads_as n (pad_start 4 (to_string n)) ≡ true
pad_start-reads_as n h =
    passes_under_lem (λ n. reads_as n (pad_start 4 (to_string n))) 10000 h padded_table

pub strip_zeros-reads_as :
    (n : ℕ) → n < 10000 → reads_as n (strip_zeros (pad_start 4 (to_string n))) ≡ true
strip_zeros-reads_as n h =
    passes_under_lem (λ n. reads_as n (strip_zeros (pad_start 4 (to_string n)))) 10000 h
      stripped_table

pub same_text_self : (s : Text) → same_text s s ≡ true
unfolding same_text
same_text_self [] = refl
same_text_self (c ∷ s) = ground (arith, same_text_self s)

pub same_text→eq : (s t : Text) → same_text s t ≡ true → s ≡ t
unfolding same_text
same_text→eq [] [] h = refl
same_text→eq [] (c ∷ t) h = absurd (ground (arith, h))
same_text→eq (c ∷ s) [] h = absurd (ground (arith, h))
same_text→eq (c ∷ s) (d ∷ t) h =
    let rest = same_text→eq s t (ground (arith, h)) in
    let first : c ≡ d = ==→eq c d (ground (arith, h)) in rw (first, rest) refl
