-- ===== src/Ledger/Balance.antt =====
-- `assertBalancedPerCurrency` against the signed sums of the lines.
use fintech_nova_pay.Common.{
  ◌≡◌, refl, sym, ◌∙◌, inl, inr, Bool, true, false, List, [], ◌∷◌, if◌then◌else◌, Bool-cases,
  &&-left, &&-right, arith,
}
use fintech_nova_pay.Common.Int.{ℤ, pos, ◌+ℤ◌, ◌-ℤ◌, eqb_ℤ→eq, int_laws, +ℤ_assoc, zero-add_ℤ}
use fintech_nova_pay.Common.Result.{Result, ok, err, >>=-eq-ok, ok-injective}
use fintech_nova_pay.Accounts.Entity.{Currency, same_currency, same_currency_self, same_currency→eq}
use fintech_nova_pay.Decimal.{parse_scaled_amount}
use fintech_nova_pay.Ledger.Entity.{LedgerEntryType, debit, credit}
use fintech_nova_pay.Ledger.Lines.{
  Line, Sides, add_side, add_line, sum_sides, every_equal, assert_balanced_per_currency, signed,
}

abbrev pub or_zero : Result ℤ → ℤ
or_zero (ok v) = v
or_zero (err e) = pos 0

-- What a line adds to its account.
unfoldable pub line_amount : Line → ℤ
line_amount e = signed e.entry_type (or_zero (parse_scaled_amount e.amount))

abbrev pub when : Bool → ℤ → ℤ
when b x = if b then x else pos 0

-- The sum of the lines of one currency.
unfoldable pub signed_sum : Currency → List Line → ℤ
signed_sum c [] = pos 0
signed_sum c (e ∷ es) = when (same_currency e.currency c) (line_amount e) +ℤ signed_sum c es

-- Credits less debits of one currency in the `Map`.
side_net : Currency → List (Currency × Sides) → ℤ
side_net c [] = pos 0
side_net c ((d, s) ∷ m) = if same_currency d c then s.cr -ℤ s.dr else side_net c m

add_side-net :
    (t : LedgerEntryType) (x : ℤ) (s : Sides)
    → let s' = add_side t x s in s'.cr -ℤ s'.dr ≡ (s.cr -ℤ s.dr) +ℤ signed t x
add_side-net debit x s = omega int_laws
add_side-net credit x s = omega int_laws

same_currency-cong :
    (k d c : Currency) → same_currency k d ≡ true → same_currency k c ≡ same_currency d c
same_currency-cong k d c h = rw (same_currency→eq k d h)

same_currency-other :
    (k d c : Currency)
    → same_currency k d ≡ false
    → same_currency k c ≡ true
    → same_currency d c ≡ false
same_currency-other k d c h p = elim (Bool-cases (same_currency d c)) [
  | inl q ↦
      let e : same_currency k d ≡ true =
        rw (same_currency→eq k c p, same_currency→eq d c q) (same_currency_self c) in
      cc
  | inr q ↦ q
]

same_key :
    (c d : Currency) (t : LedgerEntryType) (x : ℤ) (s : Sides) (rest : ℤ)
    → let s' = add_side t x s in
      (if same_currency d c then s'.cr -ℤ s'.dr else rest)
      ≡ (if same_currency d c then s.cr -ℤ s.dr else rest) +ℤ when (same_currency d c) (signed t x)
same_key c d t x s rest = elim (Bool-cases (same_currency d c)) [
  | inl q ↦ rw q (add_side-net t x s)
  | inr q ↦ rw q (omega int_laws)
]

other_key :
    (c k d : Currency) (x : ℤ) (s : Sides) (before after : ℤ)
    → same_currency k d ≡ false
    → after ≡ before +ℤ when (same_currency d c) x
    → (if same_currency k c then s.cr -ℤ s.dr else after)
      ≡ (if same_currency k c then s.cr -ℤ s.dr else before) +ℤ when (same_currency d c) x
other_key c k d x s before after h ih = elim (Bool-cases (same_currency k c)) [
  | inl q ↦ rw (q, same_currency-other k d c h q) (omega int_laws)
  | inr q ↦ rw q ih
]

side_net-add_line :
    (c d : Currency) (t : LedgerEntryType) (x : ℤ) (m : List (Currency × Sides))
    → side_net c (add_line d t x m) ≡ side_net c m +ℤ when (same_currency d c) (signed t x)
unfolding side_net add_line
side_net-add_line c d t x [] = elim (Bool-cases (same_currency d c)) [
  | inl q ↦ rw q (rw (add_side-net t x (record { dr = pos 0; cr = pos 0 })) (omega int_laws))
  | inr q ↦ rw q (omega int_laws)
]
side_net-add_line c d t x ((k, s) ∷ m) = elim (Bool-cases (same_currency k d)) [
  | inl p ↦ rw (p, same_currency-cong k d c p) (same_key c d t x s (side_net c m))
  | inr p ↦ rw p (
      other_key c k d (signed t x) s (side_net c m) (side_net c (add_line d t x m)) p
        (side_net-add_line c d t x m))
]

sum_sides-net :
    (c : Currency) (es : List Line) (m : List (Currency × Sides)) {m' : List (Currency × Sides)}
    → sum_sides es m ≡ ok m'
    → side_net c m' ≡ side_net c m +ℤ signed_sum c es
unfolding sum_sides signed_sum line_amount
sum_sides-net c [] m h = rw (← ok-injective h) (omega int_laws)
sum_sides-net c (e ∷ es) m h =
    let (x, p, q) = >>=-eq-ok (parse_scaled_amount e.amount) _ h in
    rw (sum_sides-net c es _ q, side_net-add_line c e.currency e.entry_type x m, p) (+ℤ_assoc _ _ _)

every_equal-net :
    (c : Currency) (m : List (Currency × Sides)) → every_equal m ≡ true → side_net c m ≡ pos 0
unfolding side_net every_equal
every_equal-net c [] h = refl
every_equal-net c ((d, s) ∷ m) h = elim (Bool-cases (same_currency d c)) [
  | inl q ↦ rw q (rw (eqb_ℤ→eq s.dr s.cr (&&-left _ _ h)) (omega int_laws))
  | inr q ↦ rw q (every_equal-net c m (&&-right _ _ h))
]

-- Lines that pass the check move no money in or out of any currency.
pub balanced-signed_sum :
    (es : List Line) (c : Currency)
    → assert_balanced_per_currency es ≡ ok tt
    → signed_sum c es ≡ pos 0
unfolding assert_balanced_per_currency side_net
balanced-signed_sum es c h =
    let (m, p, q) = >>=-eq-ok (sum_sides es []) _ h in
    let zero_net : side_net c m ≡ pos 0 = every_equal-net c m (ground (arith, q)) in
    sym (zero-add_ℤ (signed_sum c es)) ∙ sym (sum_sides-net c es [] p) ∙ zero_net
