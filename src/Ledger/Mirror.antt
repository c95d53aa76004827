-- ===== src/Ledger/Mirror.antt =====
-- The sums of the mirrored lines of reversal.service.ts.
use fintech_nova_pay.Common.{
  ℕ, ◌==◌, ◌≡◌, refl, sym, Bool, true, false, List, [], ◌∷◌, length, arith,
}
use fintech_nova_pay.Common.Int.{ℤ, pos, ◌+ℤ◌, negate, int_laws}
use fintech_nova_pay.Accounts.Entity.{Currency, same_currency}
use fintech_nova_pay.Decimal.{parse_scaled_amount}
use fintech_nova_pay.Ledger.Entity.{LedgerEntryType, debit, credit}
use fintech_nova_pay.Ledger.Lines.{Line, signed}
use fintech_nova_pay.Ledger.Posting.{line_rows}
use fintech_nova_pay.Ledger.Reversal.{opposite, mirror}
use fintech_nova_pay.Ledger.Balance.{when, or_zero, line_amount}
use fintech_nova_pay.Ledger.Netting.{currency_sum}

signed-opposite : (t : LedgerEntryType) (x : ℤ) → signed (opposite t) x ≡ negate (signed t x)
signed-opposite debit x = omega int_laws
signed-opposite credit x = refl

when-negate : (b : Bool) (x : ℤ) → when b (negate x) ≡ negate (when b x)
when-negate true x = refl
when-negate false x = omega int_laws

negate-add : (x y : ℤ) → negate (x +ℤ y) ≡ negate x +ℤ negate y
negate-add x y = omega int_laws

zero_negate : pos 0 ≡ negate (pos 0)
zero_negate = omega int_laws

-- The lines that offset the rows written for a posting add to each account, in each currency, the
-- opposite of what the posting added.
pub currency_sum-mirror :
    (c : Currency) (k tx : ℕ) (es : List Line) (ns : List ℕ)
    → length es ≡ length ns
    → currency_sum c k (mirror (line_rows tx es ns)) ≡ negate (currency_sum c k es)
unfolding currency_sum mirror line_rows line_amount
currency_sum-mirror c k tx [] ns h = zero_negate
currency_sum-mirror c k tx (e ∷ es) [] h = absurd (omega arith)
currency_sum-mirror c k tx (e ∷ es) (n ∷ ns) h =
    let x = or_zero (parse_scaled_amount e.amount) in
    rw (currency_sum-mirror c k tx es ns (omega arith), signed-opposite e.entry_type x)
      (rw (when-negate (same_currency e.currency c) (signed e.entry_type x)) (
        rw
          (when-negate (e.account_id == k)
            (when (same_currency e.currency c) (signed e.entry_type x)))
          (sym (negate-add _ _))))
