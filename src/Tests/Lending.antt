-- ===== src/Tests/Lending.antt =====
-- Loans paid out of and back into the small bank.
use fintech_nova_pay.Common.{
  ℕ, suc, ◌==◌, ==-self, ◌&&◌, ◌≡◌, refl, true, Option, none, some, List, [], ◌∷◌, length,
  if◌then◌else◌, arith,
}
use fintech_nova_pay.Common.Int.{◌+ℤ◌, ◌-ℤ◌, negate}
use fintech_nova_pay.Common.Result.{Result, ok, err}
use fintech_nova_pay.Common.Text.{Text, trim, to_string, big_int, pad_start, strip_zeros, same_text}
use fintech_nova_pay.Common.Text.Laws.{same_text_self}
use fintech_nova_pay.Common.Dict.{lookup, insert, keys, sort}
use fintech_nova_pay.Common.Table.{save_all}
use fintech_nova_pay.Decimal.{
  scaled, parse_scaled_amount, parse_scaled_balance_field, parse_scaled_decimal,
  format_scaled_decimal, before_point, second_part, or_zero, parse_amount_to_big_int4,
  format_big_int_amount4, amount_gte4, subtract_amount4,
}
use fintech_nova_pay.Decimal.Pattern.{span_digits, match_fraction, match_decimal, match_signed}
use fintech_nova_pay.Accounts.Entity.{usd, same_currency}
use fintech_nova_pay.Ledger.Conservation.{total}
use fintech_nova_pay.Ledger.Lines.{
  add_line, sum_sides, every_equal, assert_balanced_per_currency, distinct, count_from,
  assign_line_numbers, add_delta, net_lines,
}
use fintech_nova_pay.Ledger.Projection.{
  net_projection, project_account, validate_account, validate_all, project_all,
  apply_ledger_posting_projections,
}
use fintech_nova_pay.Ledger.Posting.{
  assert_reversal_metadata, line_rows, projection_lines, insert_by_line, entries_of,
  load_tx_with_entries, assert_reversal_target_posted,
  validate_account_balances_before_ledger_insert, write_lines, insert_header, check_posting,
  post_new, post_with_shared_manager,
}
use fintech_nova_pay.Ledger.Store.{Inserted, stored}
use fintech_nova_pay.Outbox.Enqueue.{enqueue_in_transaction}
use fintech_nova_pay.Payments.Slot.{
  new_payment_from_dto, find_or_insert_record, announce, find_or_insert_payment, settle_fingerprint,
  with_record, resolve_idempotency_slot,
}
use fintech_nova_pay.Payments.Requests.{
  payment_ledger_correlation_id, build_ledger_post_dto, is_fraud_approved_for_payment,
  assert_accounts_ready, fraud_decline_reason,
}
use fintech_nova_pay.Payments.Orchestrator.{
  assert_owned_by_actor, load_rows, load_payment_accounts_locked, assert_caller,
  build_fraud_evaluation_context, gate, finish, fail_payment, complete_payment, process,
  submit_to_fraud, submit_resolved, submit_payment_with_shared_manager,
}
use fintech_nova_pay.Fraud.Entity.{FraudDecisionState}
use fintech_nova_pay.Loans.Entity.{
  Loan, LoanStatus, loan_key, LoanRepayment, ApplyLoanDto, DisburseLoanDto, RepayLoanDto,
}
use fintech_nova_pay.Loans.Store.{
  NewLoan, loan_with_id, reread_loan, LoanTable, RepaymentTable, LoanStore, LoanDb,
  enqueue_loan_event,
}
use fintech_nova_pay.Loans.Apply.{
  new_loan, insert_application, apply_in_transaction, apply_for_loan,
}
use fintech_nova_pay.Loans.Disburse.{
  disburse_correlation, disburse_dto, disbursement_accounts, disbursed, record_disbursement,
  pay_out, disburse_loan, disburse_in_transaction, disburse_approved_to_wallet,
}
use fintech_nova_pay.Loans.Repay.{
  repay_correlation, repay_dto, check_amount, check_repayable, repaid, save_repayment,
  apply_repayment, record_repayment, collect, repay_loan, repay_in_transaction, repay_from_wallet,
}
use fintech_nova_pay.Loans.Overdue.{sweep_overdue_loans}
use fintech_nova_pay.Loans.Once.{Refused, disburse-once}
use fintech_nova_pay.Loans.Lifecycle.{LoansEvolved}
use fintech_nova_pay.Loans.Runs.{calls, disbursing, repaying, sweeping, ended, runs-LoansEvolved}
use fintech_nova_pay.Loans.Accounting.{Repaid, repay_from_wallet-exact}
use fintech_nova_pay.Loans.Money.{disburse-total, repay-total}
use fintech_nova_pay.Tests.Tables.{
  find_account, sum, find_tx, taken, insert_tx, account_table, ledger_db,
}
use fintech_nova_pay.Tests.Columns.{four_places, four_places-value}
use fintech_nova_pay.Tests.Rows.{find_row, row_table}
use fintech_nova_pay.Tests.Postings.{is_ok, returned}
use fintech_nova_pay.Tests.Submissions.{bank, open_db, twelve, readable, find_record, find_payment}

unfoldable find_applied : Text → Text → List Loan → Option Loan
find_applied k s [] = none
find_applied k s (l ∷ t) =
    if same_text l.apply_idempotency_key k && same_text l.apply_idempotency_scope_key s
    then some l
    else find_applied k s t

abbrev add_loan : NewLoan → List Loan → Inserted (List Loan)
add_loan n t =
    stored (suc (length t)) (reread_loan four_places (loan_with_id (suc (length t)) n) ∷ t)

add_loan-find_applied :
    (n : NewLoan) (t : List Loan) {i : ℕ} {t' : List Loan}
    → add_loan n t ≡ stored i t'
    → find_applied n.apply_idempotency_key n.apply_idempotency_scope_key t'
      ≡ some (reread_loan four_places (loan_with_id i n))
unfolding find_applied
add_loan-find_applied n t h =
    ground (
      arith,
      h,
      same_text_self n.apply_idempotency_key,
      same_text_self n.apply_idempotency_scope_key,
    )

abbrev loan_table : LoanTable
loan_table = record {
  table = row_table loan_key;
  column = four_places;
  column-value = four_places-value;
  find_by_apply_key = find_applied;
  insert = add_loan;
  find_active_with_maturity_before = λ cutoff t. t;
  insert-find_by_apply_key = add_loan-find_applied;
}

unfoldable find_repayment : ℕ → ℕ → List LoanRepayment → Option LoanRepayment
find_repayment l p [] = none
find_repayment l p (r ∷ t) =
    if r.loan_id == l && r.payment_id == p then some r else find_repayment l p t

find_repayment-save :
    (r : LoanRepayment) (t : List LoanRepayment)
    → find_repayment r.loan_id r.payment_id (record r { amount = four_places r.amount } ∷ t)
      ≡ some (record r { amount = four_places r.amount })
unfolding find_repayment
find_repayment-save r t = ground (arith, ==-self r.loan_id, ==-self r.payment_id)

abbrev repayment_table : RepaymentTable
repayment_table = record {
  Rows = List LoanRepayment;
  find_by_payment = find_repayment;
  save = λ r t. record r { amount = four_places r.amount } ∷ t;
  column = four_places;
  find_by_payment-save = find_repayment-save;
}

abbrev lender : LoanStore
lender = record {
  money = bank FraudDecisionState.approved;
  loans = loan_table;
  repayments = repayment_table;
}

abbrev application : ApplyLoanDto
application = record {
  apply_idempotency_key = b'a' ∷ [];
  apply_idempotency_scope_key = none;
  borrower_user_id = 20;
  principal_amount = twelve;
  currency = usd;
  borrower_wallet_account_id = some 2;
  loan_funding_account_id = some 1;
  interest_rate_bps = none;
  term_months = none;
  maturity_date = some 5;
}

abbrev loan_of : LoanStatus → Loan
loan_of s =
    record (loan_with_id 1 (record {
      borrower_user_id = 20;
      status = s;
      principal_amount = twelve;
      outstanding_principal = twelve;
      currency = usd;
      borrower_wallet_account_id = some 2;
      loan_funding_account_id = some 1;
      interest_rate_bps = none;
      term_months = none;
      maturity_date = some 5;
      apply_idempotency_key = b'a' ∷ [];
      apply_idempotency_scope_key = [];
      approved_at = none;
    })) { closed_at = none }

abbrev lending_db : LoanStatus → LoanDb lender
lending_db s = record { money = open_db; loans = loan_of s ∷ []; repayments = [] }

abbrev payout : DisburseLoanDto
payout = record {
  idempotency_key = b'd' ∷ [];
  idempotency_scope_key = none;
  reference = b'r' ∷ [];
  memo = none;
}

-- 2.5
abbrev installment : RepayLoanDto
installment = record {
  idempotency_key = b'p' ∷ [];
  idempotency_scope_key = none;
  reference = b'r' ∷ [];
  source_account_id = 2;
  amount = b'2' ∷ b'.' ∷ b'5' ∷ [];
  memo = none;
}

abbrev applied : Result Loan × LoanDb lender
applied =
    apply_for_loan lender 3 application 20 (record (lending_db LoanStatus.approved) { loans = [] })

abbrev paid_out : Result Loan × LoanDb lender
paid_out = disburse_approved_to_wallet lender 7 1 payout 10 (lending_db LoanStatus.approved)

abbrev paid_back : Result Loan × LoanDb lender
paid_back = repay_from_wallet lender 8 1 installment 20 (lending_db LoanStatus.active)

outstanding : Result Loan → Text
outstanding (ok l) = l.outstanding_principal
outstanding (err e) = []

abbrev principal : Result Loan → Text
principal (ok l) = l.principal_amount
principal (err e) = []

runs :
    (is_ok applied.0 ≡ true)
    × (is_ok paid_out.0 ≡ true)
    × (is_ok paid_back.0 ≡ true)
    × (outstanding paid_back.0 ≡ b'1' ∷ b'0' ∷ b'.' ∷ b'0' ∷ b'0' ∷ b'0' ∷ b'0' ∷ [])
    × (principal applied.0 ≡ twelve)
unfolding outstanding ◌+ℤ◌ ◌-ℤ◌ negate lookup insert keys sort save_all trim to_string big_int
    pad_start strip_zeros same_text scaled parse_scaled_amount parse_scaled_balance_field
    parse_scaled_decimal format_scaled_decimal span_digits match_fraction match_decimal match_signed
    same_currency add_line sum_sides every_equal assert_balanced_per_currency distinct count_from
    assign_line_numbers add_delta net_lines net_projection project_account validate_account
    validate_all project_all apply_ledger_posting_projections assert_reversal_metadata line_rows
    projection_lines insert_by_line entries_of load_tx_with_entries assert_reversal_target_posted
    validate_account_balances_before_ledger_insert write_lines insert_header check_posting post_new
    post_with_shared_manager enqueue_in_transaction find_account sum find_tx taken insert_tx
    new_payment_from_dto find_or_insert_record announce find_or_insert_payment settle_fingerprint
    with_record resolve_idempotency_slot payment_ledger_correlation_id build_ledger_post_dto
    is_fraud_approved_for_payment assert_accounts_ready fraud_decline_reason assert_owned_by_actor
    load_rows load_payment_accounts_locked assert_caller build_fraud_evaluation_context gate finish
    fail_payment complete_payment process submit_to_fraud submit_resolved
    submit_payment_with_shared_manager find_record find_payment before_point second_part or_zero
    parse_amount_to_big_int4 format_big_int_amount4 amount_gte4 subtract_amount4 enqueue_loan_event
    new_loan insert_application apply_in_transaction apply_for_loan disburse_correlation
    disburse_dto disbursement_accounts disbursed record_disbursement pay_out disburse_loan
    disburse_in_transaction disburse_approved_to_wallet repay_correlation repay_dto check_amount
    check_repayable repaid save_repayment apply_repayment record_repayment collect repay_loan
    repay_in_transaction repay_from_wallet find_applied find_repayment find_row
runs = (refl, refl, refl, refl, refl)

funding_is_first : (funding : ℕ) → some 1 ≡ some funding → 1 ≡ funding
funding_is_first funding h = cc

disburse-once_example :
    (disburse_approved_to_wallet lender 9 1 payout 99 paid_out.1
      ≡ (ok (returned paid_out runs.1).0, paid_out.1))
    × Refused lender 9 1 payout 99
        (sweep_overdue_loans lender 9 6 (repay_from_wallet lender 8 1 installment 20 paid_out.1).1)
disburse-once_example =
    disburse-once lender 7 1 payout 10 (lending_db LoanStatus.approved) (returned paid_out runs.1).1
      (calls (repaying 8 1 installment 20) (calls (sweeping 9 6) ended)) 9 payout 99

runs-LoansEvolved_example :
    LoansEvolved lender
      (lending_db LoanStatus.approved).loans
      (sweep_overdue_loans lender 9 6
        (repay_from_wallet lender 8 1 installment 20 paid_out.1).1).loans
runs-LoansEvolved_example = runs-LoansEvolved lender (
    calls (disbursing 7 1 payout 10)
      (calls (repaying 8 1 installment 20) (calls (sweeping 9 6) ended)))

repay_from_wallet-exact_example :
    Repaid lender 8 125000 25000 1 installment 20
      (loan_of LoanStatus.active)
      (returned paid_back runs.2).0
      (lending_db LoanStatus.active)
      paid_back.1
unfolding find_row parse_amount_to_big_int4 before_point second_part or_zero trim scaled
repay_from_wallet-exact_example =
    repay_from_wallet-exact lender 8 1 installment 20 (loan_of LoanStatus.active)
      (lending_db LoanStatus.active) refl refl refl (returned paid_back runs.2).1

disburse-total_example :
    total account_table usd (1 ∷ 2 ∷ []) paid_out.1.money.ledger.accounts
    ≡ total account_table usd (1 ∷ 2 ∷ []) ledger_db.accounts
unfolding find_row distinct
disburse-total_example =
    disburse-total lender usd (1 ∷ 2 ∷ []) 7 1 payout 10 (loan_of LoanStatus.approved)
      (lending_db LoanStatus.approved) refl refl refl refl refl refl readable

repay-total_example :
    total account_table usd (1 ∷ 2 ∷ []) paid_back.1.money.ledger.accounts
    ≡ total account_table usd (1 ∷ 2 ∷ []) ledger_db.accounts
unfolding find_row distinct
repay-total_example =
    repay-total lender usd (1 ∷ 2 ∷ []) 8 1 installment 20 (loan_of LoanStatus.active)
      (lending_db LoanStatus.active) refl refl refl
      (λ funding h. rw (← funding_is_first funding h) refl) readable
