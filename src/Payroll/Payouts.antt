-- ===== src/Payroll/Payouts.antt =====
-- `executePayrollItemPayouts` of payroll-orchestrator.service.ts with `markItemPayoutFailed` of
-- payroll.service.ts.
use fintech_nova_pay.Common.{ℕ, not, Option, none, some, List, [], ◌∷◌, ◌++◌, take, if◌then◌else◌}
use fintech_nova_pay.Common.Result.{
  Result, ok, err, Exception, message, bad_request, not_found, or_throw,
}
use fintech_nova_pay.Common.Action.{Action, transaction}
use fintech_nova_pay.Common.Text.{Text, trim}
use fintech_nova_pay.Accounts.Entity.{currency_name, Currency}
use fintech_nova_pay.Outbox.Entity.{payroll_item_completed, Payload, Value}
use fintech_nova_pay.Ledger.Entity.{
  debit, credit, transfer, LedgerEntryType, PostLedgerEntryLineDto, PostLedgerTransactionDto,
}
use fintech_nova_pay.Ledger.Posting.{post_with_shared_manager}
use fintech_nova_pay.Fraud.Entity.{text_of}
use fintech_nova_pay.Payroll.Entity.{
  PayrollBatch, PayrollItem, PayrollItemStatus, ProcessPayrollBatchDto, is_pending_item,
}
use fintech_nova_pay.Payroll.Store.{PayrollStore, PayrollDb, correlation_of, enqueue_payroll_event}

abbrev pub entry : ℕ → LedgerEntryType → Text → Currency → PostLedgerEntryLineDto
entry account side amount currency = record {
  account_id = account;
  entry_type = side;
  amount = amount;
  currency = currency;
  line_number = none;
  memo = none;
}

-- From the clearing account to the employee.
unfoldable pub payout_dto : Text → PayrollBatch → PayrollItem → ℕ → PostLedgerTransactionDto
payout_dto item_text header row clearing = record {
  type = transfer;
  reverses_transaction_id = none;
  correlation_id = text_of "pr:i:" ++ item_text;
  memo =
      some (
        take 512
          (text_of "Payroll " ++ header.reference ++ text_of " line " ++ row.item_reference));
  entries =
      entry clearing debit row.amount row.currency
      ∷ entry row.employee_account_id credit row.amount row.currency
      ∷ [];
}

abbrev pub text_value : Option Text → Value
text_value none = Value.null
text_value (some s) = Value.text s

abbrev item_completed_payload : ℕ → PayrollBatch → PayrollItem → ℕ → Payload
item_completed_payload now batch item tx =
    ("eventName", Value.word "payroll.item.completed")
    ∷ ("batchId", Value.id batch.id)
    ∷ ("itemId", Value.id item.id)
    ∷ ("itemReference", Value.text item.item_reference)
    ∷ ("employeeAccountId", Value.id item.employee_account_id)
    ∷ ("batchReference", Value.text batch.reference)
    ∷ ("batchCorrelationId", text_value batch.correlation_id)
    ∷ ("paymentId", Value.null)
    ∷ ("ledgerTransactionId", Value.id tx)
    ∷ ("amount", Value.text item.amount)
    ∷ ("currency", Value.word (currency_name item.currency))
    ∷ ("occurredAt", Value.time now)
    ∷ []

unfoldable pub paid_item : ℕ → PayrollItem → PayrollItem
paid_item tx row = record row {
  status = PayrollItemStatus.completed;
  ledger_transaction_id = some tx;
}

unfoldable pub failed_item : Exception → PayrollItem → PayrollItem
failed_item e row = record row {
  status = PayrollItemStatus.failed;
  memo = some (take 512 (text_of (message e)));
}

module _ (S : PayrollStore) where
  open S use {items as I, batches as B}

  unfoldable pub clearing_account_id : Currency → Result ℕ
  clearing_account_id currency =
      or_throw (S.clearing currency) (bad_request "Payroll clearing is not configured")

  unfoldable pub pay_row :
      ℕ → ProcessPayrollBatchDto → PayrollBatch → PayrollItem → ℕ → Action (PayrollDb S) (Unit {0})
  pay_row now dto header row clearing db =
      let post = payout_dto (S.uuid_text row.id) header row clearing in
      let (x, ledger) =
        post_with_shared_manager S.ledger now post (trim post.correlation_id) db.ledger in
      let db₁ : PayrollDb S = record db { ledger = ledger } in
      elim x [
        | err e ↦ (err e, db₁)
        | ok posted ↦
            let saved = paid_item posted.header.id row in
            (
              ok tt,
              enqueue_payroll_event S now payroll_item_completed (correlation_of dto header)
                  (item_completed_payload now header saved posted.header.id)
                  (record db₁ { items = I.save saved db₁.items }),
            )
      ]

  -- The body of one payout's transaction.
  unfoldable pub pay_item : ℕ → ProcessPayrollBatchDto → ℕ → ℕ → ℕ → Action (PayrollDb S) (Unit {0})
  pay_item now dto batch_id clearing item_id db = elim (I.find item_id db.items) [
    | none ↦ (ok tt, db)
    | some row ↦
        if not (is_pending_item row.status)
        then (ok tt, db)
        else elim (B.find batch_id db.batches) [
          | none ↦ (err (not_found "Payroll batch not found"), db)
          | some header ↦ pay_row now dto header row clearing db
        ]
  ]

  unfoldable pub mark_item_payout_failed : ℕ → Exception → PayrollDb S → PayrollDb S
  mark_item_payout_failed item_id e db = elim (I.find item_id db.items) [
    | none ↦ db
    | some row ↦
        if not (is_pending_item row.status)
        then db
        else record db { items = I.save (failed_item e row) db.items }
  ]

  -- One round of the loop: a payout in its own transaction, and the mark if it throws.
  unfoldable pub payout_round :
      ℕ → ProcessPayrollBatchDto → ℕ → ℕ → PayrollItem → PayrollDb S → PayrollDb S
  payout_round now dto batch_id clearing item db =
      if not (is_pending_item item.status)
      then db
      else let (x, db₁) = transaction (pay_item now dto batch_id clearing item.id) db in
        elim x [ ok u ↦ db₁ | err e ↦ mark_item_payout_failed item.id e db₁ ]

  unfoldable pub payout_rounds :
      ℕ → ProcessPayrollBatchDto → ℕ → ℕ → List PayrollItem → PayrollDb S → PayrollDb S
  payout_rounds now dto batch_id clearing [] db = db
  payout_rounds now dto batch_id clearing (i ∷ is) db =
      payout_rounds now dto batch_id clearing is (payout_round now dto batch_id clearing i db)

  unfoldable pub execute_payroll_item_payouts :
      ℕ → ProcessPayrollBatchDto → PayrollBatch → List PayrollItem → Action (PayrollDb S) (Unit {0})
  execute_payroll_item_payouts now dto batch items db = elim (clearing_account_id batch.currency) [
    | err e ↦ (err e, db)
    | ok clearing ↦ (ok tt, payout_rounds now dto batch.id clearing items db)
  ]
