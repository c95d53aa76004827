-- ===== src/Outbox/Relay.antt =====
-- The relay of the outbox: the claims and marks of outbox.repository.ts, and `relayPendingBatch` of
-- outbox-processor.service.ts. The broker and the row locks of other workers are parameters. Times
-- are milliseconds; one batch reads the clock once.
use fintech_nova_pay.Common.{
  ℕ, zero, suc, ◌+◌, ◌*◌, ◌==◌, ltb, leb, Bool, true, false, not, ◌&&◌, none, some, List, [], ◌∷◌,
  map, take, if◌then◌else◌,
}
use fintech_nova_pay.Common.Result.{Result, ok, err, plain_error}
use fintech_nova_pay.Common.Action.{Action}
use fintech_nova_pay.Common.Dict.{elem}
use fintech_nova_pay.Outbox.Entity.{OutboxEvent, OutboxStatus, pending, claimed, published, failed}
use fintech_nova_pay.Outbox.Enqueue.{event_id}

abbrev pub is_pending : OutboxStatus → Bool
is_pending pending = true
is_pending _ = false

abbrev pub is_claimed : OutboxStatus → Bool
is_claimed claimed = true
is_claimed _ = false

-- `UPDATE outbox_events SET … WHERE …`
unfoldable pub update :
    (OutboxEvent → Bool) → (OutboxEvent → OutboxEvent) → List OutboxEvent → List OutboxEvent
update p f [] = []
update p f (e ∷ es) = (if p e then f e else e) ∷ update p f es

-- The rows that such an update affects.
unfoldable pub affected : (OutboxEvent → Bool) → List OutboxEvent → ℕ
affected p [] = 0
affected p (e ∷ es) = let rest = affected p es in if p e then suc rest else rest

-- `ORDER BY created_at ASC`
unfoldable pub insert_by_creation : OutboxEvent → List OutboxEvent → List OutboxEvent
insert_by_creation x [] = x ∷ []
insert_by_creation x (y ∷ ys) =
    if leb x.created_at y.created_at then x ∷ y ∷ ys else y ∷ insert_by_creation x ys

-- The pending rows that no other worker has locked.
unfoldable pub pending_rows : (ℕ → Bool) → List OutboxEvent → List OutboxEvent
pending_rows locked [] = []
pending_rows locked (e ∷ es) =
    let rest = pending_rows locked es in
    if is_pending e.status && not (locked e.id) then insert_by_creation e rest else rest

abbrev pub claim : ℕ → OutboxEvent → OutboxEvent
claim now e = record e { status = claimed; claimed_at = some now }

unfoldable pub claim_pending_batch_for_relay :
    (ℕ → Bool) → ℕ → ℕ → Action (List OutboxEvent) (List OutboxEvent)
claim_pending_batch_for_relay locked limit now outbox =
    let rows = take limit (pending_rows locked outbox) in
    (ok (map (claim now) rows), update (λ e. elem e.id (map event_id rows)) (claim now) outbox)

-- `WHERE id = … AND status = 'CLAIMED'`
abbrev pub claimed_row : ℕ → OutboxEvent → Bool
claimed_row id e = e.id == id && is_claimed e.status

abbrev pub publish_row : ℕ → OutboxEvent → OutboxEvent
publish_row now e = record e { status = published; published_at = some now; claimed_at = none }

abbrev pub fail_row : OutboxEvent → OutboxEvent
fail_row e = record e { status = failed; claimed_at = none }

unfoldable pub mark_published : ℕ → ℕ → Action (List OutboxEvent) Bool
mark_published now id outbox = (
  ok (ltb 0 (affected (claimed_row id) outbox)),
  update (claimed_row id) (publish_row now) outbox,
)

-- The update is committed before the count is tested.
unfoldable pub assert_mark_published_exactly_one : ℕ → ℕ → Action (List OutboxEvent) (Unit {0})
assert_mark_published_exactly_one now id outbox = (
  (if affected (claimed_row id) outbox == 1
      then ok tt
      else err (plain_error "Outbox markPublished: expected affected=1")),
  update (claimed_row id) (publish_row now) outbox,
)

unfoldable pub mark_failed : ℕ → Action (List OutboxEvent) Bool
mark_failed id outbox =
    (ok (ltb 0 (affected (claimed_row id) outbox)), update (claimed_row id) fail_row outbox)

-- `claimed_at < cutoff OR (claimed_at IS NULL AND created_at < cutoff)`, the cutoff being
-- `now - maxAgeSeconds * 1000`.
abbrev pub is_stale : ℕ → ℕ → OutboxEvent → Bool
is_stale max_age now e = is_claimed e.status && elim e.claimed_at [
  | none ↦ ltb (e.created_at + max_age * 1000) now
  | some t ↦ ltb (t + max_age * 1000) now
]

abbrev pub unclaim : OutboxEvent → OutboxEvent
unclaim e = record e { status = pending; claimed_at = none }

unfoldable pub reclaim_stale_claimed : ℕ → ℕ → Action (List OutboxEvent) ℕ
reclaim_stale_claimed max_age now outbox =
    (ok (affected (is_stale max_age now) outbox), update (is_stale max_age now) unclaim outbox)

-- The loop over `attempt`; a failed attempt is tried again, and the last one is only logged.
unfoldable pub mark_with_retries : ℕ → ℕ → ℕ → List OutboxEvent → List OutboxEvent
mark_with_retries zero now id outbox = outbox
mark_with_retries (suc n) now id outbox =
    let (x, outbox₁) = assert_mark_published_exactly_one now id outbox in
    elim x [ ok u ↦ outbox₁ | err e ↦ mark_with_retries n now id outbox₁ ]

module _ (publish_envelope_confirmed : OutboxEvent → Result (Unit {0})) where
  unfoldable pub relay_row : ℕ → ℕ → OutboxEvent → List OutboxEvent → List OutboxEvent
  relay_row retries now row outbox = elim (publish_envelope_confirmed row) [
    | err e ↦ (mark_failed row.id outbox).1
    | ok u ↦ mark_with_retries retries now row.id outbox
  ]

  unfoldable pub relay_rows : ℕ → ℕ → List OutboxEvent → List OutboxEvent → List OutboxEvent
  relay_rows retries now [] outbox = outbox
  relay_rows retries now (row ∷ rows) outbox =
      relay_rows retries now rows (relay_row retries now row outbox)

  -- The claims are never an exception, so the rows are passed on as they are.
  unfoldable pub relay_pending_batch :
      (ℕ → Bool) → ℕ → ℕ → ℕ → ℕ → List OutboxEvent → List OutboxEvent
  relay_pending_batch locked max_age retries limit now outbox =
      let outbox₁ = (reclaim_stale_claimed max_age now outbox).1 in
      let (x, outbox₂) = claim_pending_batch_for_relay locked limit now outbox₁ in
      elim x [ err e ↦ outbox₂ | ok rows ↦ relay_rows retries now rows outbox₂ ]
