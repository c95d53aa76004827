-- ===== src/Outbox/Evolution.antt =====
-- The life of an outbox row under the relay, as a step relation on its status.
use fintech_nova_pay.Common.{
  ℕ, zero, suc, ◌≡◌, refl, ◌∙◌, ◌==◌, inl, inr, Bool, true, List, [], ◌∷◌, map, Bool-cases,
  &&-right, &&-left, arith, Option, none, some,
}
use fintech_nova_pay.Common.Result.{Result, ok, err}
use fintech_nova_pay.Outbox.Entity.{OutboxEvent, OutboxStatus, pending, claimed, published, failed}
use fintech_nova_pay.Outbox.Enqueue.{event_id}
use fintech_nova_pay.Outbox.Relay.{
  is_pending, is_claimed, update, claimed_row, publish_row, fail_row,
  assert_mark_published_exactly_one, mark_failed, is_stale, unclaim, reclaim_stale_claimed,
  mark_with_retries,
}

-- The steps that the statuses are meant to take.
pub data Moves : OutboxStatus → OutboxStatus → Type 0 where
  claiming : Moves pending claimed
  publishing : Moves claimed published
  failing : Moves claimed failed
  reclaiming : Moves claimed pending

pub data Reaches : OutboxStatus → OutboxStatus → Type 0 where
  stay : {s : OutboxStatus} → Reaches s s
  move : {s t u : OutboxStatus} → Moves s t → Reaches t u → Reaches s u

pub Reaches-trans : {s t u : OutboxStatus} → Reaches s t → Reaches t u → Reaches s u
Reaches-trans stay y = y
Reaches-trans (move m x) y = move m (Reaches-trans x y)

-- The same event, further on.
pub record Evolved (e e' : OutboxEvent) : Type 0 where
  pub id : e'.id ≡ e.id
  pub routing_key : e'.routing_key ≡ e.routing_key
  pub payload : e'.payload ≡ e.payload
  pub correlation_id : e'.correlation_id ≡ e.correlation_id
  pub occurred_at : e'.occurred_at ≡ e.occurred_at
  pub status : Reaches e.status e'.status

unfoldable pub AllEvolved : List OutboxEvent → List OutboxEvent → Type 0
AllEvolved [] [] = Unit
AllEvolved (e ∷ es) (f ∷ fs) = Evolved e f × AllEvolved es fs
AllEvolved _ _ = ⊥

pub Evolved-refl : (e : OutboxEvent) → Evolved e e
Evolved-refl e = record {
  id = refl;
  routing_key = refl;
  payload = refl;
  correlation_id = refl;
  occurred_at = refl;
  status = stay;
}

Evolved-trans : (a b c : OutboxEvent) → Evolved a b → Evolved b c → Evolved a c
Evolved-trans a b c x y = record {
  id = y.id ∙ x.id;
  routing_key = y.routing_key ∙ x.routing_key;
  payload = y.payload ∙ x.payload;
  correlation_id = y.correlation_id ∙ x.correlation_id;
  occurred_at = y.occurred_at ∙ x.occurred_at;
  status = Reaches-trans x.status y.status;
}

pub AllEvolved-refl : (es : List OutboxEvent) → AllEvolved es es
unfolding AllEvolved
AllEvolved-refl [] = tt
AllEvolved-refl (e ∷ es) = (Evolved-refl e, AllEvolved-refl es)

pub AllEvolved-trans :
    (xs ys zs : List OutboxEvent) → AllEvolved xs ys → AllEvolved ys zs → AllEvolved xs zs
unfolding AllEvolved
AllEvolved-trans [] [] [] x y = tt
AllEvolved-trans [] [] (c ∷ zs) x y = elim y [ ]
AllEvolved-trans [] (b ∷ ys) zs x y = elim x [ ]
AllEvolved-trans (a ∷ xs) [] zs x y = elim x [ ]
AllEvolved-trans (a ∷ xs) (b ∷ ys) [] x y = elim y [ ]
AllEvolved-trans (a ∷ xs) (b ∷ ys) (c ∷ zs) (u, us) (v, vs) =
    (Evolved-trans a b c u v, AllEvolved-trans xs ys zs us vs)

-- An update that moves each row it touches along the relation.
update-AllEvolved :
    (p : OutboxEvent → Bool) (f : OutboxEvent → OutboxEvent)
    → ((e : OutboxEvent) → p e ≡ true → Evolved e (f e))
    → (es : List OutboxEvent) → AllEvolved es (update p f es)
unfolding update AllEvolved
update-AllEvolved p f h [] = tt
update-AllEvolved p f h (e ∷ es) = elim (Bool-cases (p e)) [
  | inl t ↦ rw t (h e t, update-AllEvolved p f h es)
  | inr t ↦ rw t (Evolved-refl e, update-AllEvolved p f h es)
]

-- A row that differs from another in its status and times.
pub moved :
    (e : OutboxEvent) (s : OutboxStatus) (c p : Option ℕ)
    → Reaches e.status s
    → Evolved e (record e { status = s; claimed_at = c; published_at = p })
moved e s c p r = record {
  id = refl;
  routing_key = refl;
  payload = refl;
  correlation_id = refl;
  occurred_at = refl;
  status = r;
}

claimed-Reaches : (s t : OutboxStatus) → is_claimed s ≡ true → Moves claimed t → Reaches s t
claimed-Reaches claimed t h m = move m stay
claimed-Reaches pending t h m = absurd (ground arith)
claimed-Reaches published t h m = absurd (ground arith)
claimed-Reaches failed t h m = absurd (ground arith)

pub pending-Reaches : (s : OutboxStatus) → is_pending s ≡ true → Reaches s claimed
pending-Reaches pending h = move claiming stay
pending-Reaches claimed h = absurd (ground arith)
pending-Reaches published h = absurd (ground arith)
pending-Reaches failed h = absurd (ground arith)

pub mark_failed-AllEvolved :
    (id : ℕ) (outbox : List OutboxEvent) → AllEvolved outbox (mark_failed id outbox).1
unfolding mark_failed
mark_failed-AllEvolved id outbox =
    update-AllEvolved (claimed_row id) fail_row
      (λ e h.
        moved e failed none e.published_at
          (claimed-Reaches e.status failed (&&-right (e.id == id) (is_claimed e.status) h) failing))
      outbox

assert_mark-AllEvolved :
    (now id : ℕ) (outbox : List OutboxEvent)
    → AllEvolved outbox (assert_mark_published_exactly_one now id outbox).1
unfolding assert_mark_published_exactly_one
assert_mark-AllEvolved now id outbox =
    update-AllEvolved (claimed_row id) (publish_row now)
      (λ e h. moved e published none (some now) (
        claimed-Reaches e.status published (&&-right (e.id == id) (is_claimed e.status) h)
          publishing))
      outbox

pub reclaim_stale_claimed-AllEvolved :
    (max_age now : ℕ) (outbox : List OutboxEvent)
    → AllEvolved outbox (reclaim_stale_claimed max_age now outbox).1
unfolding reclaim_stale_claimed
reclaim_stale_claimed-AllEvolved max_age now outbox =
    update-AllEvolved (is_stale max_age now) unclaim
      (λ e h.
        moved e pending none e.published_at
          (claimed-Reaches e.status pending (&&-left (is_claimed e.status) _ h) reclaiming))
      outbox

pub AllEvolved-either :
    (o a b : List OutboxEvent) (x : Result (Unit {0}))
    → AllEvolved o a
    → AllEvolved o b
    → AllEvolved o (elim x [ ok u ↦ a | err e ↦ b ])
AllEvolved-either o a b (ok u) p q = p
AllEvolved-either o a b (err e) p q = q

pub mark_with_retries-AllEvolved :
    (n now id : ℕ) (outbox : List OutboxEvent)
    → AllEvolved outbox (mark_with_retries n now id outbox)
unfolding mark_with_retries
mark_with_retries-AllEvolved zero now id outbox = AllEvolved-refl outbox
mark_with_retries-AllEvolved (suc n) now id outbox =
    let marked = assert_mark_published_exactly_one now id outbox in
    let first = assert_mark-AllEvolved now id outbox in
    AllEvolved-either outbox marked.1 (mark_with_retries n now id marked.1) marked.0 first (
      AllEvolved-trans outbox marked.1 (mark_with_retries n now id marked.1) first
        (mark_with_retries-AllEvolved n now id marked.1))

pub AllEvolved-ids :
    (es fs : List OutboxEvent) → AllEvolved es fs → map event_id fs ≡ map event_id es
unfolding AllEvolved
AllEvolved-ids [] [] x = refl
AllEvolved-ids [] (f ∷ fs) x = elim x [ ]
AllEvolved-ids (e ∷ es) [] x = elim x [ ]
AllEvolved-ids (e ∷ es) (f ∷ fs) (x, xs) = rw (x.id, AllEvolved-ids es fs xs) refl
