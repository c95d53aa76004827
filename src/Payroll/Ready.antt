-- ===== src/Payroll/Ready.antt =====
-- The checks on creation against the checks before processing.
use fintech_nova_pay.Common.{
  ℕ, ◌≡◌, refl, inl, inr, true, false, Option, List, [], ◌∷◌, all, Bool-cases, arith,
}
use fintech_nova_pay.Common.Int.{ℤ, pos, ◌+ℤ◌}
use fintech_nova_pay.Common.Result.{ok, Result-cases}
use fintech_nova_pay.Common.Text.{Text}
use fintech_nova_pay.Decimal.{scale_amount}
use fintech_nova_pay.Accounts.Entity.{Account, Currency, same_currency}
use fintech_nova_pay.Payroll.Entity.{CreatePayrollBatchDto, CreatePayrollItemDto, is_pending_item}
use fintech_nova_pay.Payroll.Validation.{
  has_reference, check_party, check_lines, equals_total, assert_create_batch_valid, sum_items,
  no_items, assert_item_totals_match_batch_header, assert_batch_ready_for_processing,
}
use fintech_nova_pay.Payroll.Create.{new_batch, new_item, new_items}

check_lines-sum_items :
    (find : ℕ → Option Account) (ids : CreatePayrollItemDto → ℕ) (batch : ℕ) (c : Currency)
    (seen : List Text) (sum : ℤ) (lines : List CreatePayrollItemDto) {v : ℤ}
    → check_lines find c seen sum lines ≡ ok v
    → sum_items c sum (new_items ids batch lines) ≡ ok v
unfolding check_lines sum_items new_items new_item
check_lines-sum_items find ids batch c seen sum [] h = h
check_lines-sum_items find ids batch c seen sum (l ∷ ls) {v} h =
    elim (Bool-cases (has_reference l.item_reference seen)) [
      | inl r ↦ absurd (ground (arith, r, h))
      | inr r ↦ elim (Result-cases (check_party find l.employee_account_id l.currency)) [
        | inr (e, p) ↦ absurd (ground (arith, r, p, h))
        | inl (u, p) ↦ elim (Bool-cases (same_currency l.currency c)) [
          | inr s ↦ absurd (ground (arith, r, p, s, h))
          | inl s ↦ elim (Result-cases (scale_amount l.amount)) [
            | inr (e, a) ↦ absurd (ground (arith, r, p, s, a, h))
            | inl (x, a) ↦
                let rest =
                  check_lines-sum_items find ids batch c (l.item_reference ∷ seen) (sum +ℤ x) ls
                    {v = v} (ground (arith, r, p, s, a, h)) in
                ground (arith, s, a, rest)
          ]
        ]
      ]
    ]

new_items-pending :
    (ids : CreatePayrollItemDto → ℕ) (batch : ℕ) (lines : List CreatePayrollItemDto)
    → all (λ i. is_pending_item i.status) (new_items ids batch lines) ≡ true
unfolding new_items new_item
new_items-pending ids batch [] = refl
new_items-pending ids batch (l ∷ ls) = new_items-pending ids batch ls

-- The batch and the items that are stored for a command with at least one line, if it passes the
-- checks on creation, pass the checks before processing: the sums agree.
pub create_valid-ready :
    (find : ℕ → Option Account) (dto : CreatePayrollBatchDto) (ids : CreatePayrollItemDto → ℕ)
    (batch : ℕ) {u : Unit {0}}
    → assert_create_batch_valid find dto ≡ ok u
    → no_items (new_items ids batch dto.items) ≡ false
    → assert_batch_ready_for_processing (new_batch batch dto) (new_items ids batch dto.items)
      ≡ ok tt
unfolding assert_create_batch_valid assert_batch_ready_for_processing
    assert_item_totals_match_batch_header new_batch
create_valid-ready find dto ids batch {u} h n =
    let pending = new_items-pending ids batch dto.items in
    elim (Result-cases (check_party find dto.employer_account_id dto.currency)) [
      | inr (e, p) ↦ absurd (ground (arith, p, h))
      | inl (w, p) ↦ elim (Result-cases (check_lines find dto.currency [] (pos 0) dto.items)) [
        | inr (e, c) ↦ absurd (ground (arith, p, c, h))
        | inl (sum, c) ↦
            let same =
              check_lines-sum_items find ids batch dto.currency [] (pos 0) dto.items {v = sum} c in
            elim (Result-cases (scale_amount dto.total_amount)) [
              | inr (e, t) ↦ absurd (ground (arith, p, c, t, h))
              | inl (total, t) ↦
                  let equal : equals_total sum total ≡ ok u = ground (arith, p, c, t, h) in
                  ground (arith, n, pending, same, t, equal)
            ]
      ]
    ]
