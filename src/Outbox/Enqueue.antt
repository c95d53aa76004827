-- ===== src/Outbox/Enqueue.antt =====
-- `enqueueInTransaction` of outbox.repository.ts. The database makes the row's identifier and its
-- creation time.
use fintech_nova_pay.Common.{ℕ, ◌≡◌, false, none, List, [], ◌∷◌, ◌++◌, map}
use fintech_nova_pay.Common.Dict.{elem}
use fintech_nova_pay.Outbox.Entity.{OutboxEvent, NewOutboxEventRow, pending}

abbrev pub event_id : OutboxEvent → ℕ
event_id e = e.id

-- `gen_random_uuid()` on the outbox: an identifier that no row has.
pub record EventIds : Type 0 where
  pub new_id : List OutboxEvent → ℕ
  pub new_id-fresh : (es : List OutboxEvent) → elem (new_id es) (map event_id es) ≡ false

module _ (I : EventIds) where
  unfoldable pub enqueue_in_transaction :
      ℕ → NewOutboxEventRow → List OutboxEvent → List OutboxEvent
  enqueue_in_transaction created_at row outbox =
      outbox
      ++ record {
        id = I.new_id outbox;
        routing_key = row.routing_key;
        payload = row.payload;
        status = pending;
        correlation_id = row.correlation_id;
        occurred_at = row.occurred_at;
        created_at = created_at;
        claimed_at = none;
        published_at = none;
      }
        ∷ []
