-- ===== src/Payroll/Store.antt =====
-- What payroll keeps, and the database behind it.
use fintech_nova_pay.Common.{ℕ, Option, none, some, List}
use fintech_nova_pay.Common.Result.{Result}
use fintech_nova_pay.Common.Text.{Text}
use fintech_nova_pay.Common.Table.{Table}
use fintech_nova_pay.Accounts.Entity.{Currency}
use fintech_nova_pay.Outbox.Entity.{OutboxRoutingKey, Payload}
use fintech_nova_pay.Outbox.Enqueue.{enqueue_in_transaction}
use fintech_nova_pay.Ledger.Store.{LedgerStore, Db, Inserted}
use fintech_nova_pay.Payroll.Entity.{
  PayrollBatch, batch_key, PayrollItem, item_key, PayrollFundingReservation, reservation_key,
  ProcessPayrollBatchDto,
}

pub record PayrollStore : Type 1 where
  pub ledger : LedgerStore
  pub batches : Table PayrollBatch batch_key
  pub items : Table PayrollItem item_key
  pub reservations : Table PayrollFundingReservation reservation_key
  -- Inserts give each row the identifier that the database makes. A batch is unique by employer and
  -- key, an item by batch and reference, a reservation by batch.
  pub insert_batch : (ℕ → PayrollBatch) → batches.Rows → Inserted batches.Rows
  pub insert_items : List (ℕ → PayrollItem) → items.Rows → Result (List PayrollItem × items.Rows)
  pub insert_reservation :
      (ℕ → PayrollFundingReservation) → reservations.Rows → Inserted reservations.Rows
  pub find_by_employer_and_key : ℕ → Text → batches.Rows → Option PayrollBatch
  pub find_reservation : ℕ → reservations.Rows → Option PayrollFundingReservation
  -- The items of a batch by creation time.
  pub find_by_batch : ℕ → items.Rows → List PayrollItem
  pub uuid_text : ℕ → Text
  -- `PAYROLL_CLEARING_ACCOUNT_<CURRENCY>`, trimmed, if it is set and not blank.
  pub clearing : Currency → Option ℕ

pub record WagesDb (Ledger Batches Items Reservations : Type 0) : Type 0 where
  pub ledger : Ledger
  pub batches : Batches
  pub items : Items
  pub reservations : Reservations

abbrev pub PayrollDb : PayrollStore → Type 0
PayrollDb S = WagesDb (Db S.ledger) S.batches.Rows S.items.Rows S.reservations.Rows

-- The command's correlation, or the batch's, or the key.
abbrev pub correlation_of : ProcessPayrollBatchDto → PayrollBatch → Text
correlation_of dto batch = elim dto.correlation_id [
  | some c ↦ c
  | none ↦ elim batch.correlation_id [ some c ↦ c | none ↦ dto.idempotency_key ]
]

module _ (S : PayrollStore) where
  unfoldable pub enqueue_payroll_event :
      ℕ → OutboxRoutingKey → Text → Payload → PayrollDb S → PayrollDb S
  enqueue_payroll_event now key correlation payload db = record db {
    ledger = record (db.ledger) {
      outbox =
          enqueue_in_transaction S.ledger.events now
            (record {
              routing_key = key;
              payload = payload;
              correlation_id = some correlation;
              occurred_at = now;
            })
            db.ledger.outbox;
    };
  }
