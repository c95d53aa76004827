-- ===== src/Payroll/Entity.antt =====
-- Payroll batches, their items and reservations, and the commands (modules/payroll/entities, enums,
-- dto). Creation and update times are the database's.
use fintech_nova_pay.Common.{ℕ, Bool, true, false, Option, List}
use fintech_nova_pay.Common.Text.{Text}
use fintech_nova_pay.Accounts.Entity.{Currency}

pub data PayrollBatchStatus : Type 0 where
  draft funding_reserved disbursing completed failed cancelled : PayrollBatchStatus

pub data PayrollItemStatus : Type 0 where
  pending processing completed failed skipped : PayrollItemStatus

pub data ReservationStatus : Type 0 where
  pending posted released : ReservationStatus

pub record PayrollBatch : Type 0 where
  pub id : ℕ
  pub employer_account_id : ℕ
  pub total_amount : Text
  pub currency : Currency
  pub status : PayrollBatchStatus
  pub reference : Text
  pub idempotency_key : Text
  pub correlation_id : Option Text
  pub external_batch_ref : Option Text
  pub memo : Option Text

abbrev pub batch_key : PayrollBatch → ℕ
batch_key b = b.id

pub record PayrollItem : Type 0 where
  pub id : ℕ
  pub batch_id : ℕ
  pub employee_account_id : ℕ
  pub amount : Text
  pub currency : Currency
  pub status : PayrollItemStatus
  pub item_reference : Text
  pub payment_id : Option ℕ
  pub ledger_transaction_id : Option ℕ
  pub memo : Option Text

abbrev pub item_key : PayrollItem → ℕ
item_key i = i.id

pub record PayrollFundingReservation : Type 0 where
  pub id : ℕ
  pub batch_id : ℕ
  pub reserved_amount : Text
  pub currency : Currency
  pub ledger_transaction_id : Option ℕ
  pub reservation_status : ReservationStatus

abbrev pub reservation_key : PayrollFundingReservation → ℕ
reservation_key r = r.id

pub record CreatePayrollItemDto : Type 0 where
  pub item_reference : Text
  pub employee_account_id : ℕ
  pub amount : Text
  pub currency : Currency
  pub memo : Option Text

pub record CreatePayrollBatchDto : Type 0 where
  pub idempotency_key : Text
  pub employer_account_id : ℕ
  pub total_amount : Text
  pub currency : Currency
  pub reference : Text
  pub correlation_id : Option Text
  pub external_batch_ref : Option Text
  pub memo : Option Text
  pub items : List CreatePayrollItemDto

pub record ProcessPayrollBatchDto : Type 0 where
  pub idempotency_key : Text
  pub correlation_id : Option Text
  pub memo : Option Text

abbrev pub is_draft : PayrollBatchStatus → Bool
is_draft draft = true
is_draft _ = false

abbrev pub is_disbursing : PayrollBatchStatus → Bool
is_disbursing disbursing = true
is_disbursing _ = false

abbrev pub is_pending_item : PayrollItemStatus → Bool
is_pending_item pending = true
is_pending_item _ = false

abbrev pub is_completed_item : PayrollItemStatus → Bool
is_completed_item completed = true
is_completed_item _ = false

abbrev pub is_failed_item : PayrollItemStatus → Bool
is_failed_item failed = true
is_failed_item _ = false

abbrev pub is_posted_reservation : ReservationStatus → Bool
is_posted_reservation posted = true
is_posted_reservation _ = false
