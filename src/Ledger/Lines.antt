-- ===== src/Ledger/Lines.antt =====
-- The checks of posting.service.ts on the lines of a posting alone: balance by currency, line
-- numbers, and the net change of each account.
use fintech_nova_pay.Common.{
  ℕ, suc, Bool, true, false, not, ◌&&◌, Option, none, some, List, [], ◌∷◌, if◌then◌else◌, all,
}
use fintech_nova_pay.Common.Int.{ℤ, pos, ◌+ℤ◌, negate, eqb_ℤ}
use fintech_nova_pay.Common.Result.{Result, ok, err, bad_request, ◌>>=◌, throw_if}
use fintech_nova_pay.Common.Dict.{Dict, lookup, insert, get_or, elem}
use fintech_nova_pay.Accounts.Entity.{Currency, same_currency}
use fintech_nova_pay.Decimal.{parse_scaled_amount}
use fintech_nova_pay.Ledger.Entity.{LedgerEntryType, debit, credit, PostLedgerEntryLineDto}

abbrev pub Line : Type 0
Line = PostLedgerEntryLineDto

-- The `Map` from currencies to sums of debits and credits.
pub record Sides : Type 0 where
  pub dr : ℤ
  pub cr : ℤ

abbrev pub add_side : LedgerEntryType → ℤ → Sides → Sides
add_side debit x s = record s { dr = s.dr +ℤ x }
add_side credit x s = record s { cr = s.cr +ℤ x }

unfoldable pub add_line :
    Currency → LedgerEntryType → ℤ → List (Currency × Sides) → List (Currency × Sides)
add_line c t x [] = (c, add_side t x (record { dr = pos 0; cr = pos 0 })) ∷ []
add_line c t x ((d, s) ∷ m) =
    if same_currency d c then (d, add_side t x s) ∷ m else (d, s) ∷ add_line c t x m

unfoldable pub sum_sides : List Line → List (Currency × Sides) → Result (List (Currency × Sides))
sum_sides [] sums = ok sums
sum_sides (e ∷ es) sums = parse_scaled_amount e.amount >>= λ scaled.
    sum_sides es (add_line e.currency e.entry_type scaled sums)

abbrev pub sides_equal : Currency × Sides → Bool
sides_equal (c, s) = eqb_ℤ s.dr s.cr

unfoldable pub every_equal : List (Currency × Sides) → Bool
every_equal [] = true
every_equal (x ∷ xs) = sides_equal x && every_equal xs

unfoldable pub assert_balanced_per_currency : List Line → Result (Unit {0})
assert_balanced_per_currency entries = sum_sides entries [] >>= λ sums.
    throw_if (not (every_equal sums))
      (bad_request "Ledger entries are not balanced (debits must equal credits per currency)")

-- Line numbers: all given and distinct, or all left out.
given : List Line → List ℕ
given [] = []
given (e ∷ es) = elim e.line_number [ none ↦ given es | some n ↦ n ∷ given es ]

unfoldable pub distinct : List ℕ → Bool
distinct [] = true
distinct (n ∷ ns) = not (elem n ns) && distinct ns

unfoldable pub count_from : ℕ → List Line → List ℕ
count_from i [] = []
count_from i (e ∷ es) = i ∷ count_from (suc i) es

abbrev has_number : Line → Bool
has_number e = elim e.line_number [ none ↦ false | some n ↦ true ]

unfoldable pub assign_line_numbers : List Line → Result (List ℕ)
unfolding given
assign_line_numbers entries =
    if all has_number entries
    then throw_if (not (distinct (given entries))) (bad_request "Duplicate lineNumber values")
      >>= (λ _. ok (given entries))
    else if all (λ e. not (has_number e)) entries
    then ok (count_from 1 entries)
    else err (bad_request "lineNumber must be provided for all lines or omitted for all")

-- CREDIT adds to an account, DEBIT takes from it.
abbrev pub signed : LedgerEntryType → ℤ → ℤ
signed credit mag = mag
signed debit mag = negate mag

pub record Deltas : Type 0 where
  pub delta_by_account : Dict ℤ
  pub currency_by_account : Dict Currency

-- `prevCur !== undefined && prevCur !== currency`
abbrev pub is_mixed : Option Currency → Currency → Bool
is_mixed none c = false
is_mixed (some prev) c = not (same_currency prev c)

-- One round of the loop that nets a line into the two maps.
unfoldable pub add_delta : ℕ → Currency → ℤ → Deltas → Result Deltas
add_delta account currency x d =
    throw_if (is_mixed (lookup account d.currency_by_account) currency)
      (bad_request "Mixed currencies on the same account in one posting")
    >>= λ _. ok (record {
      delta_by_account =
          insert account (get_or (pos 0) (lookup account d.delta_by_account) +ℤ x)
            d.delta_by_account;
      currency_by_account = insert account currency d.currency_by_account;
    })

abbrev pub no_deltas : Deltas
no_deltas = record { delta_by_account = []; currency_by_account = [] }

-- The first loop of `validateAccountBalancesBeforeLedgerInsert`.
unfoldable pub net_lines : List Line → Deltas → Result Deltas
net_lines [] d = ok d
net_lines (e ∷ es) d = parse_scaled_amount e.amount >>= λ mag.
    add_delta e.account_id e.currency (signed e.entry_type mag) d >>= net_lines es
