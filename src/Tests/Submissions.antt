-- ===== src/Tests/Submissions.antt =====
-- Submissions of payments to the small bank.
use fintech_nova_pay.Common.{
  ℕ, suc, ◌==◌, ==-self, ◌&&◌, ◌≡◌, refl, sym, ap, ◌∙◌, ◌⊎◌, true, inl, inr, Bool-cases, ==→eq,
  Option, none, some, List, [], ◌∷◌, length, if◌then◌else◌, arith,
}
use fintech_nova_pay.Common.Int.{pos}
use fintech_nova_pay.Common.Result.{Result, ok, err, ◌>>=◌}
use fintech_nova_pay.Common.Text.{Text}
use fintech_nova_pay.Common.Text.Laws.{same_text_self, same_text→eq}
use fintech_nova_pay.Accounts.Entity.{usd}
use fintech_nova_pay.Ledger.Conservation.{total}
use fintech_nova_pay.Ledger.Atomicity.{Readable}
use fintech_nova_pay.Ledger.Store.{Db, Posted, Inserted, stored}
use fintech_nova_pay.Payments.Entity.{
  Payment, PaymentStatus, PaymentType, IdempotencyRecord, IdempotencyRecordStatus, CreatePaymentDto,
  is_terminal,
}
use fintech_nova_pay.Payments.Store.{
  NewRecord, record_with_id, RecordTable, reread_payment, payment_with_id, PaymentTable,
  PaymentStore, PaymentDb,
}
use fintech_nova_pay.Fraud.Entity.{FraudDecisionState, RiskDecision}
use fintech_nova_pay.Payments.Gate.{submit_to_fraud-declined, submit_payment-ended}
use fintech_nova_pay.Payments.Replay.{SamePayment, submit_payment-replay}
use fintech_nova_pay.Payments.Money.{submit_payment-total, process-cases, ledger_dto}
use fintech_nova_pay.Tests.Postings.{is_ok, returned}
use fintech_nova_pay.Common.Int.{◌+ℤ◌, ◌-ℤ◌, negate}
use fintech_nova_pay.Common.Dict.{lookup, insert, keys, sort}
use fintech_nova_pay.Common.Table.{save_all}
use fintech_nova_pay.Common.Text.{trim, to_string, big_int, pad_start, strip_zeros, same_text}
use fintech_nova_pay.Decimal.{
  scaled, parse_scaled_amount, parse_scaled_balance_field, parse_scaled_decimal,
  format_scaled_decimal, parse_amount_to_big_int4,
}
use fintech_nova_pay.Decimal.Pattern.{span_digits, match_fraction, match_decimal, match_signed}
use fintech_nova_pay.Accounts.Entity.{same_currency}
use fintech_nova_pay.Ledger.Lines.{
  add_line, sum_sides, every_equal, assert_balanced_per_currency, distinct, count_from,
  assign_line_numbers, add_delta, net_lines,
}
use fintech_nova_pay.Ledger.Projection.{
  net_projection, project_account, validate_account, validate_all, project_all,
  apply_ledger_posting_projections,
}
use fintech_nova_pay.Ledger.Posting.{
  assert_reversal_metadata, line_rows, projection_lines, insert_by_line, entries_of,
  load_tx_with_entries, assert_reversal_target_posted,
  validate_account_balances_before_ledger_insert, write_lines, insert_header, check_posting,
  post_new, post_with_shared_manager,
}
use fintech_nova_pay.Outbox.Enqueue.{enqueue_in_transaction}
use fintech_nova_pay.Tests.Columns.{four_places, four_places-value}
use fintech_nova_pay.Tests.Tables.{
  find_account, sum, find_tx, taken, insert_tx, account_table, ledger_store, ledger_db,
  Readable-rows,
}
use fintech_nova_pay.Payments.Slot.{
  new_payment_from_dto, find_or_insert_record, announce, find_or_insert_payment, settle_fingerprint,
  with_record, resolve_idempotency_slot,
}
use fintech_nova_pay.Payments.Requests.{
  payment_ledger_correlation_id, build_ledger_post_dto, is_fraud_approved_for_payment,
  assert_accounts_ready, fraud_decline_reason,
}
use fintech_nova_pay.Payments.Orchestrator.{
  assert_owned_by_actor, load_rows, load_payment_accounts_locked, assert_caller,
  build_fraud_evaluation_context, gate, finish, fail_payment, complete_payment, process,
  submit_to_fraud, submit_resolved, submit_payment_with_shared_manager, submit_payment,
}

unfoldable pub find_record : Text → Text → List IdempotencyRecord → Option IdempotencyRecord
find_record k s [] = none
find_record k s (r ∷ t) =
    if same_text r.idempotency_key k && same_text r.scope_key s then some r else find_record k s t

pub find_record-save :
    (r : IdempotencyRecord) (t : List IdempotencyRecord)
    → find_record r.idempotency_key r.scope_key (r ∷ t) ≡ some r
unfolding find_record
find_record-save r t = ground (arith, same_text_self r.idempotency_key, same_text_self r.scope_key)

pub find_record-key :
    (k s : Text) (t : List IdempotencyRecord) {r : IdempotencyRecord}
    → find_record k s t ≡ some r
    → (r.idempotency_key ≡ k) × (r.scope_key ≡ s)
unfolding find_record
find_record-key k s [] h = absurd (ground arith)
find_record-key k s (x ∷ t) {r} h =
    elim (Bool-cases (same_text x.idempotency_key k && same_text x.scope_key s)) [
      | inl e ↦
          let same : x ≡ r = ground (arith, e, h) in
          (
            rw (← same) (same_text→eq x.idempotency_key k (ground (arith, e))),
            rw (← same) (same_text→eq x.scope_key s (ground (arith, e))),
          )
      | inr e ↦ find_record-key k s t {r = r} (ground (arith, e, h))
    ]

abbrev pub add_record : NewRecord → List IdempotencyRecord → Inserted (List IdempotencyRecord)
add_record n t = stored (suc (length t)) (record_with_id (suc (length t)) n ∷ t)

pub add_record-find :
    (n : NewRecord) (t : List IdempotencyRecord) {i : ℕ} {t' : List IdempotencyRecord}
    → add_record n t ≡ stored i t'
    → find_record n.idempotency_key n.scope_key t' ≡ some (record_with_id i n)
unfolding find_record
add_record-find n t h =
    ground (arith, h, same_text_self n.idempotency_key, same_text_self n.scope_key)

abbrev pub record_table : RecordTable
record_table = record {
  Rows = List IdempotencyRecord;
  find_by_key = find_record;
  insert = add_record;
  find-key = find_record-key;
  insert-find = add_record-find;
  save = λ r t. r ∷ t;
  find-save = find_record-save;
}

unfoldable pub find_payment : ℕ → List Payment → Option Payment
find_payment i [] = none
find_payment i (p ∷ t) = if p.idempotency_record_id == i then some p else find_payment i t

pub find_payment-save :
    (p : Payment) (t : List Payment)
    → find_payment p.idempotency_record_id (reread_payment four_places p ∷ t)
      ≡ some (reread_payment four_places p)
unfolding find_payment
find_payment-save p t = ground (arith, ==-self p.idempotency_record_id)

pub find_payment-record :
    (i : ℕ) (t : List Payment) {p : Payment}
    → find_payment i t ≡ some p
    → p.idempotency_record_id ≡ i
unfolding find_payment
find_payment-record i [] h = absurd (ground arith)
find_payment-record i (x ∷ t) {p} h = elim (Bool-cases (x.idempotency_record_id == i)) [
  | inl e ↦
      let same : x ≡ p = ground (arith, e, h) in rw (← same) (==→eq x.idempotency_record_id i e)
  | inr e ↦ find_payment-record i t {p = p} (ground (arith, e, h))
]

abbrev pub payment_table : PaymentTable
payment_table = record {
  Rows = List Payment;
  find_by_record = find_payment;
  insert = λ n t. stored (suc (length t)) (payment_with_id (suc (length t)) n ∷ t);
  save = λ p t. reread_payment four_places p ∷ t;
  column = four_places;
  column-value = four_places-value;
  find-save = find_payment-save;
  find-record = find_payment-record;
}

abbrev pub decision : FraudDecisionState → RiskDecision
decision d = record {
  id = 1;
  final_decision = d;
  final_reasons = [];
  triggered_rule_types = [];
  correlation_id = [];
  user_id = 10;
  source_account_id = 1;
  destination_account_id = 2;
  recipient_account_id = 2;
  sender_account_id = 1;
  amount = [];
  currency = usd;
  payment_reference = [];
  engine_metadata = none;
}

abbrev pub bank : FraudDecisionState → PaymentStore
bank d = record {
  ledger = ledger_store;
  records = record_table;
  payments = payment_table;
  uuid_text = λ i. i ∷ [];
  hash = λ b. b.amount;
  evaluate = λ c. ok (decision d);
}

abbrev pub open_db : PaymentDb (bank FraudDecisionState.approved)
open_db = record { ledger = ledger_db; records = []; payments = [] }

abbrev pub twelve : Text
twelve = b'1' ∷ b'2' ∷ b'.' ∷ b'5' ∷ []

abbrev command : CreatePaymentDto
command = record {
  idempotency_key = b'k' ∷ [];
  idempotency_scope_key = none;
  type = PaymentType.internal_transfer;
  reference = b'r' ∷ [];
  source_account_id = 1;
  destination_account_id = 2;
  amount = twelve;
  currency = usd;
  correlation_id = none;
  memo = none;
}

abbrev run : FraudDecisionState → Result Payment × PaymentDb (bank FraudDecisionState.approved)
run d = submit_payment (bank d) 7 command 10 open_db

abbrev slot : IdempotencyRecord
slot = record {
  id = 1;
  idempotency_key = b'k' ∷ [];
  scope_key = [];
  status = IdempotencyRecordStatus.pending;
  request_fingerprint = some twelve;
  linked_payment_id = none;
  business_reference = none;
}

abbrev taken_payment : PaymentStatus → Payment
taken_payment s = record {
  id = 1;
  type = PaymentType.internal_transfer;
  status = s;
  reference = b'r' ∷ [];
  idempotency_record_id = 1;
  source_account_id = 1;
  destination_account_id = 2;
  amount = twelve;
  currency = usd;
  ledger_transaction_id = none;
  correlation_id = none;
  memo = none;
}

abbrev processed : Result Payment × PaymentDb (bank FraudDecisionState.approved)
processed =
    process (bank FraudDecisionState.approved) 7 command slot (taken_payment PaymentStatus.pending)
      open_db

abbrev declined : Result Payment × PaymentDb (bank FraudDecisionState.blocked)
declined =
    submit_to_fraud (bank FraudDecisionState.blocked) 7 command 10 slot
      (taken_payment PaymentStatus.pending) open_db

status_of : Result Payment → Option PaymentStatus
status_of (ok p) = some p.status
status_of (err e) = none

abbrev returned_amount : Result Payment → Text
returned_amount (ok p) = p.amount
returned_amount (err e) = []

runs :
    (is_ok (run FraudDecisionState.approved).0 ≡ true)
    × (status_of (run FraudDecisionState.approved).0 ≡ some PaymentStatus.completed)
    × (status_of (run FraudDecisionState.review).0 ≡ some PaymentStatus.failed)
    × (is_ok processed.0 ≡ true)
    × (gate
          (bank FraudDecisionState.blocked)
          7
          command
          10
          (taken_payment PaymentStatus.pending)
          open_db
        ≡ ok (decision FraudDecisionState.blocked))
    × (returned_amount (run FraudDecisionState.approved).0 ≡ twelve)
unfolding status_of ◌+ℤ◌ ◌-ℤ◌ negate lookup insert keys sort save_all trim to_string big_int
    pad_start strip_zeros same_text scaled parse_scaled_amount parse_scaled_balance_field
    parse_scaled_decimal format_scaled_decimal span_digits match_fraction match_decimal match_signed
    same_currency add_line sum_sides every_equal assert_balanced_per_currency distinct count_from
    assign_line_numbers add_delta net_lines net_projection project_account validate_account
    validate_all project_all apply_ledger_posting_projections assert_reversal_metadata line_rows
    projection_lines insert_by_line entries_of load_tx_with_entries assert_reversal_target_posted
    validate_account_balances_before_ledger_insert write_lines insert_header check_posting post_new
    post_with_shared_manager enqueue_in_transaction find_account sum find_tx taken insert_tx
    new_payment_from_dto find_or_insert_record announce find_or_insert_payment settle_fingerprint
    with_record resolve_idempotency_slot payment_ledger_correlation_id build_ledger_post_dto
    is_fraud_approved_for_payment assert_accounts_ready fraud_decline_reason assert_owned_by_actor
    load_rows load_payment_accounts_locked assert_caller build_fraud_evaluation_context gate finish
    fail_payment complete_payment process submit_to_fraud submit_resolved
    submit_payment_with_shared_manager submit_payment find_record find_payment
runs = (refl, refl, refl, refl, refl, refl)

pub readable : Readable account_table ledger_db.accounts
unfolding parse_scaled_decimal match_signed span_digits match_fraction trim scaled negate
readable = Readable-rows ledger_db.accounts ((pos 1000000, refl), ((pos 50000, refl), tt))

submit_payment-total_example :
    total account_table usd (1 ∷ 2 ∷ []) (run FraudDecisionState.approved).1.ledger.accounts
    ≡ total account_table usd (1 ∷ 2 ∷ []) ledger_db.accounts
unfolding distinct
submit_payment-total_example =
    submit_payment-total (bank FraudDecisionState.approved) usd (1 ∷ 2 ∷ []) 7 command 10 open_db
      refl refl refl readable

submit_payment-ended_example :
    is_terminal (returned (run FraudDecisionState.approved) runs.0).0.status ≡ true
submit_payment-ended_example =
    submit_payment-ended (bank FraudDecisionState.approved) 7 command 10 open_db
      (returned (run FraudDecisionState.approved) runs.0).1

paid_amount :
    parse_scaled_amount (returned (run FraudDecisionState.approved) runs.0).0.amount
    ≡ ok (pos 125000)
unfolding parse_scaled_amount span_digits match_fraction match_decimal trim scaled
paid_amount =
    let h = (returned (run FraudDecisionState.approved) runs.0).1 in
    let same : (returned (run FraudDecisionState.approved) runs.0).0.amount ≡ twelve =
      sym (ap (λ x. returned_amount x.0) h) ∙ runs.5 in
    rw same refl

submit_payment-replay_example :
    (q : Payment) × SamePayment
      (bank FraudDecisionState.approved)
      (returned (run FraudDecisionState.approved) runs.0).0
      q
    × (parse_amount_to_big_int4 q.amount ≡ ok (pos 125000))
    × (submit_payment
          (bank FraudDecisionState.approved)
          9
          command
          10
          (run FraudDecisionState.approved).1
        ≡ (
          (assert_owned_by_actor
                (bank FraudDecisionState.approved)
                command.type
                q
                10
                (run FraudDecisionState.approved).1
              >>= λ u. ok q),
          (run FraudDecisionState.approved).1,
        ))
submit_payment-replay_example =
    submit_payment-replay (bank FraudDecisionState.approved) 7 command 10 open_db
      (returned (run FraudDecisionState.approved) runs.0).1 paid_amount 9 command 10 refl refl refl

submit_to_fraud-declined_example :
    (declined.0 ≡ ok (taken_payment PaymentStatus.failed))
    × (find_payment 1 declined.1.payments
        ≡ some (reread_payment four_places (taken_payment PaymentStatus.failed)))
    × (declined.1.ledger.accounts ≡ ledger_db.accounts)
    × (declined.1.ledger.transactions ≡ [])
    × (declined.1.ledger.entries ≡ [])
unfolding is_fraud_approved_for_payment
submit_to_fraud-declined_example =
    submit_to_fraud-declined (bank FraudDecisionState.blocked) 7 command 10 slot
      (taken_payment PaymentStatus.pending) open_db runs.4 refl refl

process-cases_example :
    (((returned processed runs.3).0.status ≡ PaymentStatus.failed)
      × (processed.1.ledger.accounts ≡ ledger_db.accounts)
      × (processed.1.ledger.entries ≡ []))
    ⊎ ((posted : Posted) × (ledger : Db ledger_store) × ((returned processed runs.3).0.status
          ≡ PaymentStatus.completed)
        × ((returned processed runs.3).0.ledger_transaction_id ≡ some posted.header.id)
        × (post_with_shared_manager ledger_store 7
              (ledger_dto
                (bank FraudDecisionState.approved)
                command
                (taken_payment PaymentStatus.pending))
              (trim
                (ledger_dto
                  (bank FraudDecisionState.approved)
                  command
                  (taken_payment PaymentStatus.pending)).correlation_id)
              ledger_db
            ≡ (ok posted, ledger))
        × (processed.1.ledger.accounts ≡ ledger.accounts)
        × (processed.1.ledger.entries ≡ ledger.entries))
process-cases_example =
    process-cases (bank FraudDecisionState.approved) 7 command slot
      (taken_payment PaymentStatus.pending) open_db readable (returned processed runs.3).1
