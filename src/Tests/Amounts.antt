-- ===== src/Tests/Amounts.antt =====
-- Decimal texts and sums of lines.
use fintech_nova_pay.Common.{◌≡◌, refl, ◌-◌, ◌≤◌, ◌<◌, true, List, [], ◌∷◌}
use fintech_nova_pay.Common.Int.{pos, negsuc, ◌+ℤ◌, negate}
use fintech_nova_pay.Common.Result.{Result, ok, err, plain_error}
use fintech_nova_pay.Common.Dict.{keys, sort, insert, lookup}
use fintech_nova_pay.Common.Table.{save_all}
use fintech_nova_pay.Common.Text.{Text, trim, to_string, pad_start, strip_zeros}
use fintech_nova_pay.Accounts.Entity.{Account, usd, same_currency}
use fintech_nova_pay.Decimal.{
  scaled, parse_scaled_amount, parse_scaled_decimal, scale_amount, format_scaled_decimal,
  parse_amount_to_big_int4, format_big_int_amount4, subtract_amount4, before_point, second_part,
  or_zero,
}
use fintech_nova_pay.Decimal.Pattern.{match_decimal, match_signed, match_fraction, span_digits}
use fintech_nova_pay.Decimal.RoundTrip.{parse_scaled_decimal-format}
use fintech_nova_pay.Decimal.Agreement.{parsers_agree}
use fintech_nova_pay.Decimal.LoanAmounts.{parse_amount_to_big_int4-format, subtract_amount4_exact}
use fintech_nova_pay.Ledger.Lines.{
  Line, Deltas, no_deltas, net_lines, add_delta, assert_balanced_per_currency, sum_sides, add_line,
  every_equal,
}
use fintech_nova_pay.Ledger.Projection.{project_all, project_account}
use fintech_nova_pay.Ledger.Posting.{line_rows}
use fintech_nova_pay.Ledger.Reversal.{mirror}
use fintech_nova_pay.Ledger.Balance.{signed_sum, balanced-signed_sum}
use fintech_nova_pay.Ledger.Netting.{currency_sum}
use fintech_nova_pay.Ledger.Projected.{value, project_all-value}
use fintech_nova_pay.Ledger.Mirror.{currency_sum-mirror}
use fintech_nova_pay.Tests.Tables.{account_table, ledger_db, find_account}
use fintech_nova_pay.Tests.Postings.{is_ok, transfer, twelve}

got : {A : Type 0} (x : Result A) → is_ok x ≡ true → (a : A) × (x ≡ ok a)
got (ok a) h = (a, refl)
got (err e) h = cc

abbrev lines : List Line
lines = (transfer twelve).entries

-- -0.05
parse_scaled_decimal-format_example :
    parse_scaled_decimal (format_scaled_decimal (negsuc 499)) ≡ ok (negsuc 499)
parse_scaled_decimal-format_example = parse_scaled_decimal-format (negsuc 499)

parse_amount_to_big_int4-format_example :
    parse_amount_to_big_int4 (format_big_int_amount4 (pos 125000)) ≡ ok (pos 125000)
parse_amount_to_big_int4-format_example = parse_amount_to_big_int4-format 125000

amounts :
    (parse_scaled_amount twelve ≡ ok (pos 125000))
    × (parse_amount_to_big_int4 twelve ≡ ok (pos 125000))
    × (format_scaled_decimal (negsuc 499) ≡ b'-' ∷ b'0' ∷ b'.' ∷ b'0' ∷ b'5' ∷ [])
    × (assert_balanced_per_currency lines ≡ ok tt)
    × (is_ok (net_lines lines no_deltas) ≡ true)
unfolding parse_scaled_amount match_decimal match_fraction span_digits scaled trim
    parse_amount_to_big_int4 before_point second_part or_zero format_scaled_decimal strip_zeros
    pad_start to_string assert_balanced_per_currency sum_sides add_line every_equal net_lines
    add_delta insert lookup ◌+ℤ◌ same_currency negate
amounts = (refl, refl, refl, refl, refl)

parsers_agree_example :
    (parse_scaled_decimal twelve ≡ ok (pos 125000))
    × (parse_amount_to_big_int4 twelve ≡ ok (pos 125000))
    × (scale_amount twelve ≡ ok (pos 125000))
parsers_agree_example = parsers_agree twelve amounts.0

subtract_amount4_exact_example :
    (125000 ≤ 125000
      → (r : Text) × (subtract_amount4 twelve twelve ≡ ok r)
        × (parse_amount_to_big_int4 r ≡ ok (pos (125000 - 125000))))
    × (125000 < 125000 → subtract_amount4 twelve twelve ≡ err (plain_error "Negative outstanding"))
subtract_amount4_exact_example = subtract_amount4_exact twelve twelve amounts.1 amounts.1

balanced-signed_sum_example : signed_sum usd lines ≡ pos 0
balanced-signed_sum_example = balanced-signed_sum lines usd amounts.3

currency_sum-mirror_example :
    currency_sum usd 1 (mirror (line_rows 5 lines (1 ∷ 2 ∷ []))) ≡ negate (currency_sum usd 1 lines)
currency_sum-mirror_example = currency_sum-mirror usd 1 5 lines (1 ∷ 2 ∷ []) refl

abbrev netted : Deltas
netted = (got (net_lines lines no_deltas) amounts.4).0

abbrev step : Result (List Account)
step = project_all account_table netted (sort (keys netted.delta_by_account)) ledger_db.accounts

projects : is_ok step ≡ true
unfolding project_all project_account got net_lines add_delta parse_scaled_amount match_decimal
    match_fraction span_digits scaled trim insert lookup ◌+ℤ◌ same_currency negate keys sort
    find_account parse_scaled_decimal match_signed format_scaled_decimal
projects = refl

project_all-value_example :
    value usd (find_account 2 (save_all account_table (got step projects).0 ledger_db.accounts))
    ≡ value usd (find_account 2 ledger_db.accounts) +ℤ currency_sum usd 2 lines
project_all-value_example =
    project_all-value account_table usd lines netted ledger_db.accounts 2
      (got (net_lines lines no_deltas) amounts.4).1 (got step projects).1
