-- ===== src/Outbox/Batch.antt =====
-- A batch of the relay as a whole.
use fintech_nova_pay.Common.{
  ℕ, zero, suc, ◌≡◌, refl, ◌==◌, ==→eq, ==-self, inl, inr, Bool, true, false, ◌&&◌, ◌||◌, not, List,
  [], ◌∷◌, map, take, Bool-cases, &&-right, &&-left, arith, some,
}
use fintech_nova_pay.Common.Result.{Result}
use fintech_nova_pay.Common.Dict.{elem}
use fintech_nova_pay.Ledger.Lines.{distinct}
use fintech_nova_pay.Outbox.Entity.{OutboxEvent, claimed}
use fintech_nova_pay.Outbox.Enqueue.{event_id}
use fintech_nova_pay.Outbox.Relay.{
  is_pending, update, pending_rows, insert_by_creation, claim, claim_pending_batch_for_relay,
  mark_failed, reclaim_stale_claimed, mark_with_retries, relay_row, relay_rows, relay_pending_batch,
}
use fintech_nova_pay.Outbox.Evolution.{
  AllEvolved, Evolved-refl, AllEvolved-refl, AllEvolved-trans, moved, pending-Reaches,
  mark_failed-AllEvolved, AllEvolved-either, mark_with_retries-AllEvolved, AllEvolved-ids,
  reclaim_stale_claimed-AllEvolved,
}

elem-take :
    (k n : ℕ) (xs : List OutboxEvent)
    → elem k (map event_id (take n xs)) ≡ true
    → elem k (map event_id xs) ≡ true
elem-take k zero xs h = absurd (ground arith)
elem-take k (suc n) [] h = absurd (ground arith)
elem-take k (suc n) (x ∷ xs) h = ground (arith, elem-take k n xs)

elem-insert_by_creation :
    (k : ℕ) (x : OutboxEvent) (ys : List OutboxEvent)
    → elem k (map event_id (insert_by_creation x ys)) ≡ elem k (x.id ∷ map event_id ys)
unfolding insert_by_creation
elem-insert_by_creation k x [] = refl
elem-insert_by_creation k x (y ∷ ys) = ground (arith, elem-insert_by_creation k x ys)

-- Whether a pending row has an identifier.
pending_in : ℕ → List OutboxEvent → Bool
pending_in k [] = false
pending_in k (e ∷ es) = (e.id == k && is_pending e.status) || pending_in k es

pending_in-elem :
    (k : ℕ) (es : List OutboxEvent) → pending_in k es ≡ true → elem k (map event_id es) ≡ true
unfolding pending_in
pending_in-elem k [] h = absurd (ground arith)
pending_in-elem k (e ∷ es) h = ground (arith, pending_in-elem k es)

pending_rows-pending_in :
    (locked : ℕ → Bool) (k : ℕ) (es : List OutboxEvent)
    → elem k (map event_id (pending_rows locked es)) ≡ true
    → pending_in k es ≡ true
unfolding pending_rows pending_in
pending_rows-pending_in locked k [] h = absurd (ground arith)
pending_rows-pending_in locked k (e ∷ es) h =
    elim (Bool-cases (is_pending e.status && not (locked e.id))) [
      | inl t ↦ ground (
        arith,
        t,
        elem-insert_by_creation k e (pending_rows locked es),
        pending_rows-pending_in locked k es,
      )
      | inr t ↦ ground (arith, t, pending_rows-pending_in locked k es)
    ]

tail_pending :
    (k : ℕ) (e : OutboxEvent) (es : List OutboxEvent)
    → elem e.id (map event_id es) ≡ false
    → elem k (map event_id es) ≡ true
    → pending_in k (e ∷ es) ≡ true
    → pending_in k es ≡ true
unfolding pending_in
tail_pending k e es f j h = elim (Bool-cases (e.id == k)) [
  | inl t ↦ let same = ==→eq e.id k t in absurd (grind (arith, same, f, j))
  | inr t ↦ ground (arith, t, h)
]

head_pending :
    (e : OutboxEvent) (es : List OutboxEvent)
    → elem e.id (map event_id es) ≡ false
    → pending_in e.id (e ∷ es) ≡ true
    → is_pending e.status ≡ true
unfolding pending_in
head_pending e es f h = elim (Bool-cases (pending_in e.id es)) [
  | inl p ↦ let there = pending_in-elem e.id es p in absurd (ground (arith, there, f))
  | inr p ↦ ground (arith, ==-self e.id, p, h)
]

not-true : (b : Bool) → not b ≡ true → b ≡ false
not-true b h = ground arith

-- With distinct identifiers, a set of identifiers of pending rows names pending rows only.
claiming-AllEvolved :
    (now : ℕ) (ids : List ℕ) (es : List OutboxEvent)
    → distinct (map event_id es) ≡ true
    → ((k : ℕ) → elem k ids ≡ true → elem k (map event_id es) ≡ true → pending_in k es ≡ true)
    → AllEvolved es (update (λ e. elem e.id ids) (claim now) es)
unfolding update AllEvolved distinct
claiming-AllEvolved now ids [] d h = tt
claiming-AllEvolved now ids (e ∷ es) d h =
    let new = not-true _ (&&-left (not (elem e.id (map event_id es))) _ d) in
    let rest =
      claiming-AllEvolved now ids es (&&-right (not (elem e.id (map event_id es))) _ d)
        (λ k i j. tail_pending k e es new j (h k i (ground (arith, j)))) in
    elim (Bool-cases (elem e.id ids)) [
      | inl t ↦ rw t (
        moved e claimed (some now) e.published_at (
            pending-Reaches e.status
              (head_pending e es new (h e.id t (ground (arith, ==-self e.id))))),
        rest,
      )
      | inr t ↦ rw t (Evolved-refl e, rest)
    ]

claim_pending_batch-AllEvolved :
    (locked : ℕ → Bool) (limit now : ℕ) (outbox : List OutboxEvent)
    → distinct (map event_id outbox) ≡ true
    → AllEvolved outbox (claim_pending_batch_for_relay locked limit now outbox).1
unfolding claim_pending_batch_for_relay
claim_pending_batch-AllEvolved locked limit now outbox d =
    claiming-AllEvolved now (map event_id (take limit (pending_rows locked outbox))) outbox d
      (λ k i j.
        pending_rows-pending_in locked k outbox (elem-take k limit (pending_rows locked outbox) i))

module _ (publish_envelope_confirmed : OutboxEvent → Result (Unit {0})) where
  relay_row-AllEvolved :
      (retries now : ℕ) (row : OutboxEvent) (outbox : List OutboxEvent)
      → AllEvolved outbox (relay_row publish_envelope_confirmed retries now row outbox)
  unfolding relay_row
  relay_row-AllEvolved retries now row outbox =
      AllEvolved-either outbox (mark_with_retries retries now row.id outbox)
        (mark_failed row.id outbox).1 (publish_envelope_confirmed row)
        (mark_with_retries-AllEvolved retries now row.id outbox)
        (mark_failed-AllEvolved row.id outbox)

  relay_rows-AllEvolved :
      (retries now : ℕ) (rows outbox : List OutboxEvent)
      → AllEvolved outbox (relay_rows publish_envelope_confirmed retries now rows outbox)
  unfolding relay_rows
  relay_rows-AllEvolved retries now [] outbox = AllEvolved-refl outbox
  relay_rows-AllEvolved retries now (row ∷ rows) outbox =
      let next = relay_row publish_envelope_confirmed retries now row outbox in
      AllEvolved-trans outbox next (relay_rows publish_envelope_confirmed retries now rows next)
        (relay_row-AllEvolved retries now row outbox) (relay_rows-AllEvolved retries now rows next)

  -- One batch of the relay, on rows with distinct identifiers and whatever the broker answers and
  -- other workers hold, keeps every row, in its place, with its identifier, routing key, payload,
  -- correlation and time of occurrence, and its status moves only by claiming a pending row and by
  -- publishing, failing or reclaiming a claimed one.
  pub relay_pending_batch-AllEvolved :
      (locked : ℕ → Bool) (max_age retries limit now : ℕ) (outbox : List OutboxEvent)
      → distinct (map event_id outbox) ≡ true
      → AllEvolved outbox
          (relay_pending_batch publish_envelope_confirmed locked max_age retries limit now outbox)
  unfolding relay_pending_batch claim_pending_batch_for_relay
  relay_pending_batch-AllEvolved locked max_age retries limit now outbox d =
      let outbox₁ = (reclaim_stale_claimed max_age now outbox).1 in
      let outbox₂ = (claim_pending_batch_for_relay locked limit now outbox₁).1 in
      let rows = map (claim now) (take limit (pending_rows locked outbox₁)) in
      let first = reclaim_stale_claimed-AllEvolved max_age now outbox in
      AllEvolved-trans outbox outbox₁
        (relay_rows publish_envelope_confirmed retries now rows outbox₂) first
        (AllEvolved-trans outbox₁ outbox₂
          (relay_rows publish_envelope_confirmed retries now rows outbox₂)
          (claim_pending_batch-AllEvolved locked limit now outbox₁
            (rw (AllEvolved-ids outbox outbox₁ first) d))
          (relay_rows-AllEvolved retries now rows outbox₂))
