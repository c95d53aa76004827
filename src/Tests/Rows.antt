-- ===== src/Tests/Rows.antt =====
-- A table of rows with a key, newest first.
use fintech_nova_pay.Common.{
  ℕ, ◌==◌, ◌≡◌, refl, Option, none, some, List, [], ◌∷◌, if◌then◌else◌, Bool-cases, inl, inr, ==→eq,
  ==-self, arith, map, ◌≤◌,
}
use fintech_nova_pay.Tests.Tables.{sum}
use fintech_nova_pay.Common.Table.{Table}

module _ {Row : Type 0} (key : Row → ℕ) where
  unfoldable pub find_row : ℕ → List Row → Option Row
  find_row k [] = none
  find_row k (r ∷ t) = if key r == k then some r else find_row k t

  pub find_row-key : (k : ℕ) (t : List Row) {r : Row} → find_row k t ≡ some r → key r ≡ k
  unfolding find_row
  find_row-key k [] h = absurd (ground arith)
  find_row-key k (s ∷ t) {r} h = elim (Bool-cases (key s == k)) [
    | inl e ↦ let same : s ≡ r = ground (arith, e, h) in rw (← same) (==→eq (key s) k e)
    | inr e ↦ find_row-key k t {r = r} (ground (arith, e, h))
  ]

  pub find_row-save :
      (k : ℕ) (r : Row) (t : List Row)
      → find_row k (r ∷ t) ≡ (if key r == k then some r else find_row k t)
  unfolding find_row
  find_row-save k r t = refl

  abbrev pub row_table : Table Row key
  row_table = record {
    Rows = List Row;
    find = find_row;
    save = λ r t. r ∷ t;
    find-save = find_row-save;
    find-key = find_row-key;
  }

  pub find_row-here : (r : Row) (t : List Row) → find_row (key r) (r ∷ t) ≡ some r
  unfolding find_row
  find_row-here r t = ground (arith, ==-self (key r))

  -- A number above every key is free.
  pub find_row-below :
      (k : ℕ) (t : List Row) {r : Row} → find_row k t ≡ some r → k ≤ sum (map key t)
  unfolding find_row sum
  find_row-below k [] h = absurd (ground arith)
  find_row-below k (s ∷ t) {r} h = elim (Bool-cases (key s == k)) [
    | inl e ↦ let same = ==→eq (key s) k e in omega (arith, same)
    | inr e ↦ let rest = find_row-below k t {r = r} (ground (arith, e, h)) in omega (arith, rest)
  ]
