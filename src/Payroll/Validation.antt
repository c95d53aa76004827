-- ===== src/Payroll/Validation.antt =====
-- payroll-validation.service.ts of modules/payroll/service.
use fintech_nova_pay.Common.{
  ℕ, Bool, true, false, not, ◌||◌, Option, none, some, List, [], ◌∷◌, all,
}
use fintech_nova_pay.Common.Int.{ℤ, pos, ◌+ℤ◌, eqb_ℤ}
use fintech_nova_pay.Common.Result.{
  Result, ok, bad_request, not_found, throw_if, or_throw, ◌>>=◌, ◌>>◌,
}
use fintech_nova_pay.Common.Text.{Text, same_text}
use fintech_nova_pay.Decimal.{scale_amount}
use fintech_nova_pay.Accounts.Entity.{Account, Currency, same_currency, is_active}
use fintech_nova_pay.Payroll.Entity.{
  PayrollBatch, PayrollItem, ReservationStatus, CreatePayrollBatchDto, CreatePayrollItemDto,
  is_draft, is_pending_item, is_completed_item, is_failed_item, is_posted_reservation,
}

unfoldable pub assert_account_active : Account → Result (Unit {0})
assert_account_active a = throw_if (not (is_active a.status)) (bad_request "Account must be ACTIVE")

unfoldable pub assert_currency : Account → Currency → Result (Unit {0})
assert_currency a currency =
    throw_if (not (same_currency a.currency currency))
      (bad_request "Account currency does not match batch/line currency")

unfoldable pub has_reference : Text → List Text → Bool
has_reference r [] = false
has_reference r (s ∷ seen) = same_text s r || has_reference r seen

-- Accounts are read by `requireAccountById`.
unfoldable pub check_party : (ℕ → Option Account) → ℕ → Currency → Result (Unit {0})
check_party find account currency = do
  a ← or_throw (find account) (not_found "Account not found")
  assert_account_active a
  assert_currency a currency

-- The lines, from the references seen and the sum so far.
unfoldable pub check_lines :
    (ℕ → Option Account) → Currency → List Text → ℤ → List CreatePayrollItemDto → Result ℤ
check_lines find currency seen sum [] = ok sum
check_lines find currency seen sum (line ∷ lines) =
    throw_if (has_reference line.item_reference seen)
      (bad_request "Duplicate itemReference in payload")
    >> check_party find line.employee_account_id line.currency
    >> throw_if (not (same_currency line.currency currency))
        (bad_request "Item currency must match batch currency")
    >> scale_amount line.amount
    >>= λ v. check_lines find currency (line.item_reference ∷ seen) (sum +ℤ v) lines

abbrev pub equals_total : ℤ → ℤ → Result (Unit {0})
equals_total sum total =
    throw_if (not (eqb_ℤ sum total))
      (bad_request "Sum of item amounts must equal batch totalAmount")

unfoldable pub assert_create_batch_valid :
    (ℕ → Option Account) → CreatePayrollBatchDto → Result (Unit {0})
assert_create_batch_valid find dto =
    check_party find dto.employer_account_id dto.currency
    >> check_lines find dto.currency [] (pos 0) dto.items
    >>= λ sum. scale_amount dto.total_amount >>= λ total. equals_total sum total

unfoldable pub sum_items : Currency → ℤ → List PayrollItem → Result ℤ
sum_items currency sum [] = ok sum
sum_items currency sum (line ∷ lines) =
    throw_if (not (same_currency line.currency currency))
      (bad_request "Item currency must match batch currency")
    >> scale_amount line.amount
    >>= λ v. sum_items currency (sum +ℤ v) lines

unfoldable pub assert_item_totals_match_batch_header :
    PayrollBatch → List PayrollItem → Result (Unit {0})
assert_item_totals_match_batch_header batch items =
    sum_items batch.currency (pos 0) items >>= λ sum.
    scale_amount batch.total_amount >>= λ total. equals_total sum total

abbrev pub no_items : List PayrollItem → Bool
no_items [] = true
no_items (i ∷ is) = false

unfoldable pub assert_batch_ready_for_processing :
    PayrollBatch → List PayrollItem → Result (Unit {0})
assert_batch_ready_for_processing batch items =
    throw_if (not (is_draft batch.status)) (bad_request "Batch is not in DRAFT status")
    >> throw_if (no_items items) (bad_request "Batch has no items to process")
    >> throw_if (not (all (λ i. is_pending_item i.status) items))
        (bad_request "All items must be PENDING before processing")
    >> assert_item_totals_match_batch_header batch items

abbrev posted_reservation : Option ReservationStatus → Bool
posted_reservation none = false
posted_reservation (some s) = is_posted_reservation s

unfoldable pub assert_disbursing_resume :
    Option ReservationStatus → List PayrollItem → Result (Unit {0})
assert_disbursing_resume reservation items =
    throw_if (not (posted_reservation reservation))
      (bad_request "Payroll batch is disbursing but funding reservation is not posted")
    >> throw_if (no_items items) (bad_request "Batch has no items to process")
    >> throw_if
        (not (
          all
            (λ i. is_pending_item i.status || is_completed_item i.status || is_failed_item i.status)
            items))
        (bad_request "Batch has items in a non-resumable status; resolve or cancel")
