-- ===== src/Tests/Lifecycles.antt =====
-- Accounts and outbox rows through their lives.
use fintech_nova_pay.Common.{
  ℕ, suc, ◌≡◌, refl, ◌==◌, ◌<◌, true, false, Option, none, some, List, [], ◌∷◌, map, if◌then◌else◌,
  arith,
}
use fintech_nova_pay.Common.Result.{Result, ok, err, conflict, query_failed}
use fintech_nova_pay.Common.Text.{Text, same_text}
use fintech_nova_pay.Common.Text.Laws.{same_text_self}
use fintech_nova_pay.Accounts.Entity.{Account, AccountStatus, usd}
use fintech_nova_pay.Accounts.Service.{
  AccountStore, AccountDb, CreateAccountDto, create_account, get_account_by_id,
  get_account_by_id_for_owner, update_account_status, new_account, announce,
}
use fintech_nova_pay.Accounts.Lifecycle.{
  create_account-twice, get_account_by_id_for_owner-owned, update_account_status-total,
}
use fintech_nova_pay.Ledger.Conservation.{total}
use fintech_nova_pay.Ledger.Lines.{distinct}
use fintech_nova_pay.Outbox.Entity.{
  OutboxEvent, OutboxStatus, pending, claimed, published, account_created,
}
use fintech_nova_pay.Outbox.Enqueue.{enqueue_in_transaction}
use fintech_nova_pay.Outbox.Relay.{
  relay_pending_batch, relay_rows, relay_row, mark_failed, mark_with_retries,
  assert_mark_published_exactly_one, reclaim_stale_claimed, claim_pending_batch_for_relay,
  pending_rows, insert_by_creation, affected, update,
}
use fintech_nova_pay.Outbox.Evolution.{AllEvolved}
use fintech_nova_pay.Outbox.Batch.{relay_pending_batch-AllEvolved}
use fintech_nova_pay.Tests.Tables.{account_table, event_ids, find_account, sum, wallet, ledger_db}
use fintech_nova_pay.Tests.Postings.{is_ok, returned}

unfoldable find_by_number : Text → List Account → Option Account
find_by_number n [] = none
find_by_number n (a ∷ t) = if same_text a.account_number n then some a else find_by_number n t

find_by_number-save :
    (a : Account) (t : List Account) → find_by_number a.account_number (a ∷ t) ≡ some a
unfolding find_by_number
find_by_number-save a t = ground (arith, same_text_self a.account_number)

unfoldable find_by_user : ℕ → List Account → List Account
find_by_user u [] = []
find_by_user u (a ∷ t) = let rest = find_by_user u t in if a.user_id == u then a ∷ rest else rest

ids : List Account → List ℕ
ids t = map (λ a. a.id) t

-- One more than the sum of the identifiers is free.
free : (k : ℕ) (t : List Account) → sum (ids t) < k → find_account k t ≡ none
unfolding sum find_account ids
free k [] h = refl
free k (a ∷ t) h = let rest = free k t (omega (arith, h)) in ground (arith, rest, h)

abbrev registry : AccountStore
registry = record {
  table = account_table;
  events = event_ids;
  find_by_number = find_by_number;
  find_by_user = find_by_user;
  new_id = λ t. suc (sum (ids t));
  new_id-free = λ t. free (suc (sum (ids t))) t (omega arith);
  find_by_number-save = find_by_number-save;
}

abbrev account_db : AccountDb (List Account)
account_db = record { accounts = ledger_db.accounts; outbox = [] }

abbrev request : ℕ → CreateAccountDto
request user = record {
  user_id = user;
  account_number = b'n' ∷ [];
  currency = usd;
  status = none;
  overdraft_limit = none;
}

opens :
    (is_ok (create_account registry 7 (request 30) account_db).0 ≡ true)
    × (get_account_by_id_for_owner registry 1 10 account_db
        ≡ ok (some (wallet 1 10 (b'1' ∷ b'0' ∷ b'0' ∷ b'.' ∷ b'0' ∷ b'0' ∷ b'0' ∷ b'0' ∷ []))))
unfolding create_account new_account announce enqueue_in_transaction find_by_number same_text
    get_account_by_id_for_owner get_account_by_id find_account
opens = (refl, refl)

create_account-twice_example :
    create_account registry 8 (request 40) (create_account registry 7 (request 30) account_db).1 ≡ (
      err (conflict "Account number already in use"),
      (create_account registry 7 (request 30) account_db).1,
    )
create_account-twice_example =
    create_account-twice registry 7 (request 30) account_db
      (returned (create_account registry 7 (request 30) account_db) opens.0).1 8 (request 40) refl

abbrev first : Account
first = wallet 1 10 (b'1' ∷ b'0' ∷ b'0' ∷ b'.' ∷ b'0' ∷ b'0' ∷ b'0' ∷ b'0' ∷ [])

get_account_by_id_for_owner-owned_example : (first.user_id ≡ 10) × (first.id ≡ 1)
get_account_by_id_for_owner-owned_example =
    get_account_by_id_for_owner-owned registry 1 10 account_db {a = first} opens.1

update_account_status-total_example :
    total account_table usd
      (1 ∷ 2 ∷ [])
      (update_account_status registry 7 1 AccountStatus.frozen account_db).1.accounts
    ≡ total account_table usd (1 ∷ 2 ∷ []) ledger_db.accounts
update_account_status-total_example =
    update_account_status-total registry usd (1 ∷ 2 ∷ []) 7 1 AccountStatus.frozen account_db

abbrev row : ℕ → OutboxStatus → ℕ → OutboxEvent
row id status created = record {
  id = id;
  routing_key = account_created;
  payload = [];
  status = status;
  correlation_id = none;
  occurred_at = created;
  created_at = created;
  claimed_at = none;
  published_at = none;
}

-- A pending row, one whose claim is stale, and one published.
abbrev rows : List OutboxEvent
rows = row 1 pending 9000 ∷ row 2 claimed 1000 ∷ row 3 published 500 ∷ []

-- The broker refuses the second row.
abbrev confirm : OutboxEvent → Result (Unit {0})
confirm e = if e.id == 2 then err query_failed else ok tt

abbrev status_of : OutboxEvent → OutboxStatus
status_of e = e.status

relays :
    map status_of (relay_pending_batch confirm (λ i. false) 5 5 50 9001 rows)
    ≡ published ∷ OutboxStatus.failed ∷ published ∷ []
unfolding relay_pending_batch relay_rows relay_row mark_failed mark_with_retries
    assert_mark_published_exactly_one reclaim_stale_claimed claim_pending_batch_for_relay
    pending_rows insert_by_creation affected update
relays = refl

relay_pending_batch-AllEvolved_example :
    AllEvolved rows (relay_pending_batch confirm (λ i. false) 5 5 50 9001 rows)
unfolding distinct
relay_pending_batch-AllEvolved_example =
    relay_pending_batch-AllEvolved confirm (λ i. false) 5 5 50 9001 rows refl
