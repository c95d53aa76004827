-- ===== src/Tests/Wages.antt =====
-- Payroll over the small bank.
use fintech_nova_pay.Common.{
  ℕ, suc, ◌==◌, ◌≡◌, refl, true, Option, none, some, List, [], ◌∷◌, length, all, All, if◌then◌else◌,
  arith, not, ◌&&◌,
}
use fintech_nova_pay.Common.Int.{◌+ℤ◌, ◌-ℤ◌, negate}
use fintech_nova_pay.Common.Result.{ok, Result, err}
use fintech_nova_pay.Common.Text.{trim, to_string, big_int, pad_start, strip_zeros, same_text, Text}
use fintech_nova_pay.Decimal.{
  scale_amount, scaled, parse_scaled_amount, parse_scaled_balance_field, parse_scaled_decimal,
  format_scaled_decimal,
}
use fintech_nova_pay.Decimal.Pattern.{span_digits, match_fraction, match_decimal, match_signed}
use fintech_nova_pay.Accounts.Entity.{Currency, usd, same_currency, Account}
use fintech_nova_pay.Payroll.Entity.{
  PayrollBatch, PayrollBatchStatus, batch_key, PayrollItem, PayrollItemStatus, item_key,
  PayrollFundingReservation, reservation_key, CreatePayrollItemDto, CreatePayrollBatchDto,
  ProcessPayrollBatchDto,
}
use fintech_nova_pay.Payroll.Validation.{
  assert_account_active, assert_currency, has_reference, check_party, check_lines,
  assert_create_batch_valid, assert_batch_ready_for_processing,
  assert_item_totals_match_batch_header, sum_items,
}
use fintech_nova_pay.Payroll.Store.{PayrollStore, PayrollDb, enqueue_payroll_event}
use fintech_nova_pay.Payroll.Payouts.{
  execute_payroll_item_payouts, clearing_account_id, payout_dto, paid_item, failed_item, pay_row,
  pay_item, mark_item_payout_failed, payout_round, payout_rounds,
}
use fintech_nova_pay.Payroll.Items.{AllSettled, payouts-AllSettled}
use fintech_nova_pay.Payroll.Ready.{create_valid-ready}
use fintech_nova_pay.Payroll.Create.{new_batch, new_item, new_items}
use fintech_nova_pay.Ledger.Store.{stored, Db}
use fintech_nova_pay.Payroll.Finish.{
  some_item, completed_line, with_status, complete_batch, finalize_locked,
  finalize_payroll_batch_after_disbursement, count_completed,
}
use fintech_nova_pay.Payroll.Completion.{finalize-completes}
use fintech_nova_pay.Payroll.Ended.{ended_row, payouts-ended}
use fintech_nova_pay.Payroll.Money.{process_payroll_batch-total}
use fintech_nova_pay.Payroll.Funding.{
  process_payroll_batch, funding_dto, update_batch_status, save_reservation, post_funding,
  reserve_in_transaction, reserve_employer_funds, fund_draft, prepare, require_batch, disburse,
  disburse_funded,
}
use fintech_nova_pay.Ledger.Lines.{
  distinct, add_line, sum_sides, every_equal, assert_balanced_per_currency, count_from,
  assign_line_numbers, add_delta, net_lines,
}
use fintech_nova_pay.Ledger.Conservation.{total}
use fintech_nova_pay.Common.Dict.{elem, lookup, insert, keys, sort}
use fintech_nova_pay.Common.Table.{save_all}
use fintech_nova_pay.Ledger.Projection.{
  net_projection, project_account, validate_account, validate_all, project_all,
  apply_ledger_posting_projections,
}
use fintech_nova_pay.Ledger.Posting.{
  assert_reversal_metadata, line_rows, projection_lines, insert_by_line, entries_of,
  load_tx_with_entries, assert_reversal_target_posted,
  validate_account_balances_before_ledger_insert, write_lines, insert_header, check_posting,
  post_new, post_with_shared_manager,
}
use fintech_nova_pay.Outbox.Enqueue.{enqueue_in_transaction}
use fintech_nova_pay.Tests.Tables.{
  account_table, wallet, find_account, ledger_store, ledger_db, sum, find_tx, taken, insert_tx,
}
use fintech_nova_pay.Tests.Rows.{find_row, row_table}

-- The rows of a batch, each as it was last saved.
unfoldable items_of : ℕ → List ℕ → List PayrollItem → List PayrollItem
items_of b seen [] = []
items_of b seen (i ∷ t) =
    let rest = items_of b (i.id ∷ seen) t in
    if i.batch_id == b && not (elem i.id seen) then i ∷ rest else rest

unfoldable reservation_by : ℕ → List PayrollFundingReservation → Option PayrollFundingReservation
reservation_by b [] = none
reservation_by b (r ∷ t) = if r.batch_id == b then some r else reservation_by b t

abbrev office : PayrollStore
office = record {
  ledger = ledger_store;
  batches = row_table batch_key;
  items = row_table item_key;
  reservations = row_table reservation_key;
  insert_batch = λ row t. stored (suc (length t)) (row (suc (length t)) ∷ t);
  insert_items = λ rows t. ok ([], t);
  insert_reservation = λ row t. stored (suc (length t)) (row (suc (length t)) ∷ t);
  find_by_employer_and_key = λ e k t. none;
  find_reservation = reservation_by;
  find_by_batch = λ b t. items_of b [] t;
  uuid_text = λ i. i ∷ [];
  clearing = λ c. some 3;
}

abbrev line : CreatePayrollItemDto
line = record {
  item_reference = b'x' ∷ [];
  employee_account_id = 2;
  amount = b'3' ∷ [];
  currency = usd;
  memo = none;
}

abbrev staff : CreatePayrollBatchDto
staff = record {
  idempotency_key = b'k' ∷ [];
  employer_account_id = 1;
  total_amount = b'3' ∷ b'.' ∷ b'0' ∷ [];
  currency = usd;
  reference = b'r' ∷ [];
  correlation_id = none;
  external_batch_ref = none;
  memo = none;
  items = line ∷ [];
}

abbrev order : ProcessPayrollBatchDto
order = record { idempotency_key = b'k' ∷ []; correlation_id = none; memo = none }

abbrev batch : PayrollBatch
batch = record (new_batch 5 staff) { status = PayrollBatchStatus.disbursing }

-- The small bank with an empty clearing account.
abbrev wages_db : Db ledger_store
wages_db = record ledger_db {
  accounts = wallet 3 30 (b'0' ∷ b'.' ∷ b'0' ∷ b'0' ∷ b'0' ∷ b'0' ∷ []) ∷ ledger_db.accounts;
}

abbrev payroll_db : PayrollItemStatus → PayrollDb office
payroll_db s = record {
  ledger = wages_db;
  batches = batch ∷ [];
  items = record (new_item 5 7 line) { status = s } ∷ [];
  reservations = [];
}

valid : assert_create_batch_valid (λ k. find_account k ledger_db.accounts) staff ≡ ok tt
unfolding assert_account_active assert_currency has_reference check_party check_lines
    assert_create_batch_valid find_account same_currency ◌+ℤ◌ scale_amount scaled trim match_decimal
    span_digits match_fraction
valid = refl

create_valid-ready_example :
    assert_batch_ready_for_processing (new_batch 5 staff) (new_items (λ l. 7) 5 staff.items) ≡ ok tt
unfolding new_items
create_valid-ready_example =
    create_valid-ready (λ k. find_account k ledger_db.accounts) staff (λ l. 7) 5 valid refl

payouts-AllSettled_example :
    AllSettled office
      (payroll_db PayrollItemStatus.pending).items
      (execute_payroll_item_payouts office 7 order batch
        (payroll_db PayrollItemStatus.pending).items
        (payroll_db PayrollItemStatus.pending)).1.items
payouts-AllSettled_example =
    payouts-AllSettled office 7 order batch (payroll_db PayrollItemStatus.pending).items
      (payroll_db PayrollItemStatus.pending)

stored_pending :
    All
      (λ i. find_row item_key i.id (payroll_db PayrollItemStatus.pending).items ≡ some i)
      (payroll_db PayrollItemStatus.pending).items
unfolding find_row new_item
stored_pending = (refl, tt)

payouts-ended_example :
    all
      (λ i. ended_row (
        find_row item_key i.id
          (execute_payroll_item_payouts office 7 order batch
            (payroll_db PayrollItemStatus.pending).items
            (payroll_db PayrollItemStatus.pending)).1.items))
      (payroll_db PayrollItemStatus.pending).items
    ≡ true
payouts-ended_example =
    payouts-ended office 7 order batch (payroll_db PayrollItemStatus.pending).items
      (payroll_db PayrollItemStatus.pending) {clearing = 3} refl stored_pending

abbrev ended : PayrollBatch
ended = record batch { status = PayrollBatchStatus.completed }

finalize-completes_example :
    (all completed_line (items_of 5 [] (payroll_db PayrollItemStatus.completed).items) ≡ true
      → ended.status ≡ PayrollBatchStatus.completed)
    × (ended.status ≡ PayrollBatchStatus.completed
        → all completed_line (items_of 5 [] (payroll_db PayrollItemStatus.completed).items) ≡ true)
unfolding find_row items_of some_item with_status complete_batch finalize_locked
    finalize_payroll_batch_after_disbursement enqueue_payroll_event new_item new_batch
finalize-completes_example =
    finalize-completes office 7 5 order (payroll_db PayrollItemStatus.completed) {b = batch}
      {b' = ended} refl refl refl

-- A draft whose employer has the first account and whose employee has the second.
abbrev draft_db : PayrollDb office
draft_db = record (payroll_db PayrollItemStatus.pending) { batches = new_batch 5 staff ∷ [] }

employers_in_set :
    (k : ℕ) (b : PayrollBatch)
    → find_row batch_key k draft_db.batches ≡ some b
    → elem b.employer_account_id (1 ∷ 2 ∷ 3 ∷ []) ≡ true
unfolding find_row new_batch
employers_in_set k b h = ground (arith, h)

employees_in_set :
    (k : ℕ) (i : PayrollItem)
    → find_row item_key k draft_db.items ≡ some i
    → elem i.employee_account_id (1 ∷ 2 ∷ 3 ∷ []) ≡ true
unfolding find_row new_item
employees_in_set k i h = ground (arith, h)

clearing_in_set :
    (c : Currency) (a : ℕ) → office.clearing c ≡ some a → elem a (1 ∷ 2 ∷ 3 ∷ []) ≡ true
clearing_in_set c a h = ground (arith, h)

process_payroll_batch-total_example :
    total account_table usd
      (1 ∷ 2 ∷ 3 ∷ [])
      (process_payroll_batch office 7 5 order draft_db).1.ledger.accounts
    ≡ total account_table usd (1 ∷ 2 ∷ 3 ∷ []) wages_db.accounts
unfolding distinct
process_payroll_batch-total_example =
    process_payroll_batch-total office usd (1 ∷ 2 ∷ 3 ∷ []) refl clearing_in_set 7 5 order draft_db
      employers_in_set employees_in_set

abbrev processed : Result PayrollBatch × PayrollDb office
processed = process_payroll_batch office 7 5 order draft_db

abbrev status_of : Result PayrollBatch → Option PayrollBatchStatus
status_of (ok b) = some b.status
status_of (err e) = none

abbrev balance_of : Option Account → Text
balance_of none = []
balance_of (some a) = a.balance

-- The run completes the batch and pays 3 to the employee, who had 5.
runs :
    (status_of processed.0 ≡ some PayrollBatchStatus.completed)
    × (balance_of (find_account 2 processed.1.ledger.accounts) ≡ b'8' ∷ [])
unfolding ◌+ℤ◌ ◌-ℤ◌ negate lookup insert keys sort save_all trim to_string big_int pad_start
    strip_zeros same_text scaled parse_scaled_amount parse_scaled_balance_field parse_scaled_decimal
    format_scaled_decimal span_digits match_fraction match_decimal match_signed same_currency
    add_line sum_sides every_equal assert_balanced_per_currency distinct count_from
    assign_line_numbers add_delta net_lines net_projection project_account validate_account
    validate_all project_all apply_ledger_posting_projections assert_reversal_metadata line_rows
    projection_lines insert_by_line entries_of load_tx_with_entries assert_reversal_target_posted
    validate_account_balances_before_ledger_insert write_lines insert_header check_posting post_new
    post_with_shared_manager enqueue_in_transaction find_account sum find_tx taken insert_tx
    find_row clearing_account_id payout_dto paid_item failed_item pay_row pay_item
    mark_item_payout_failed payout_round payout_rounds execute_payroll_item_payouts funding_dto
    update_batch_status save_reservation post_funding reserve_in_transaction reserve_employer_funds
    fund_draft prepare require_batch disburse disburse_funded process_payroll_batch
    assert_item_totals_match_batch_header sum_items assert_batch_ready_for_processing scale_amount
    some_item count_completed with_status complete_batch finalize_locked
    finalize_payroll_batch_after_disbursement enqueue_payroll_event new_item new_batch items_of
    reservation_by
runs = (refl, refl)
