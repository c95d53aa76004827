-- ===== src/Accounts/Service.antt =====
-- `AccountsService` of modules/accounts/service/accounts.service.ts: the lifecycle and the reads.
use fintech_nova_pay.Common.{
  ℕ, ◌≡◌, ◌==◌, Bool, true, false, not, ◌&&◌, Option, none, some, List, [], ◌∷◌, String,
  if◌then◌else◌,
}
use fintech_nova_pay.Common.Result.{Result, ok, err, conflict, forbidden, not_found}
use fintech_nova_pay.Common.Action.{Action, transaction}
use fintech_nova_pay.Common.Text.{Text}
use fintech_nova_pay.Common.Table.{Table}
use fintech_nova_pay.Accounts.Entity.{
  Account, AccountStatus, active, frozen, account_key, Currency, currency_name,
}
use fintech_nova_pay.Accounts.Entity
use fintech_nova_pay.Outbox.Entity.{
  OutboxEvent, OutboxRoutingKey, account_created, account_frozen, account_unfrozen, Payload, Value,
}
use fintech_nova_pay.Outbox.Enqueue.{EventIds, enqueue_in_transaction}

pub record CreateAccountDto : Type 0 where
  pub user_id : ℕ
  pub account_number : Text
  pub currency : Currency
  pub status : Option AccountStatus
  pub overdraft_limit : Option Text

pub record NewAccount : Type 0 where
  pub user_id : ℕ
  pub account_number : Text
  pub currency : Currency
  pub balance : Text
  pub available_balance : Text
  pub status : AccountStatus
  pub overdraft_limit : Text

abbrev pub account_with_id : ℕ → NewAccount → Account
account_with_id i n = record {
  id = i;
  user_id = n.user_id;
  account_number = n.account_number;
  currency = n.currency;
  balance = n.balance;
  available_balance = n.available_balance;
  status = n.status;
  overdraft_limit = n.overdraft_limit;
}

-- `accounts`: the table with its queries by number and by owner, and its insert, which gives a row
-- an identifier that was free.
pub record AccountStore : Type 1 where
  pub table : Table Account account_key
  pub events : EventIds
  pub find_by_number : Text → table.Rows → Option Account
  pub find_by_user : ℕ → table.Rows → List Account
  pub new_id : table.Rows → ℕ
  pub new_id-free : (t : table.Rows) → table.find (new_id t) t ≡ none
  pub find_by_number-save :
      (a : Account) (t : table.Rows) → find_by_number a.account_number (table.save a t) ≡ some a

pub record AccountDb (Rows : Type 0) : Type 0 where
  pub accounts : Rows
  pub outbox : List OutboxEvent

abbrev pub status_name : AccountStatus → String
status_name AccountStatus.pending = "PENDING"
status_name active = "ACTIVE"
status_name frozen = "FROZEN"
status_name AccountStatus.closed = "CLOSED"

abbrev pub is_frozen : AccountStatus → Bool
is_frozen frozen = true
is_frozen _ = false

abbrev zero_text : Text
zero_text = b'0' ∷ []

abbrev status_or : AccountStatus → Option AccountStatus → AccountStatus
status_or d none = d
status_or d (some s) = s

abbrev limit_or : Text → Option Text → Text
limit_or d none = d
limit_or d (some s) = s

unfoldable pub new_account : CreateAccountDto → NewAccount
new_account dto = record {
  user_id = dto.user_id;
  account_number = dto.account_number;
  currency = dto.currency;
  balance = zero_text;
  available_balance = zero_text;
  status = status_or AccountStatus.pending dto.status;
  overdraft_limit = limit_or zero_text dto.overdraft_limit;
}

-- `toJSON` of the account events
abbrev pub lifecycle_payload : String → ℕ → Account → Payload
lifecycle_payload name now a =
    ("eventName", Value.word name)
    ∷ ("accountId", Value.id a.id)
    ∷ ("userId", Value.id a.user_id)
    ∷ ("accountNumber", Value.text a.account_number)
    ∷ ("occurredAt", Value.time now)
    ∷ []

abbrev pub created_payload : ℕ → Account → Payload
created_payload now a =
    ("eventName", Value.word "account.created")
    ∷ ("accountId", Value.id a.id)
    ∷ ("userId", Value.id a.user_id)
    ∷ ("accountNumber", Value.text a.account_number)
    ∷ ("currency", Value.word (currency_name a.currency))
    ∷ ("status", Value.word (status_name a.status))
    ∷ ("occurredAt", Value.time now)
    ∷ []

module _ (S : AccountStore) where
  open S use {table as A, events as I}

  unfoldable pub announce : ℕ → OutboxRoutingKey → Payload → List OutboxEvent → List OutboxEvent
  announce now key payload outbox =
      enqueue_in_transaction I now
        (record { routing_key = key; payload = payload; correlation_id = none; occurred_at = now })
        outbox

  unfoldable pub create_account : ℕ → CreateAccountDto → Action (AccountDb A.Rows) Account
  create_account now dto = transaction λ db.
      elim (S.find_by_number dto.account_number db.accounts) [
        | some taken ↦ (err (conflict "Account number already in use"), db)
        | none ↦
            let saved = account_with_id (S.new_id db.accounts) (new_account dto) in
            (
              ok saved,
              record {
                accounts = A.save saved db.accounts;
                outbox = announce now account_created (created_payload now saved) db.outbox;
              },
            )
      ]

  unfoldable pub get_account_by_id : ℕ → AccountDb A.Rows → Option Account
  get_account_by_id id db = A.find id db.accounts

  unfoldable pub get_account_by_id_for_owner : ℕ → ℕ → AccountDb A.Rows → Result (Option Account)
  get_account_by_id_for_owner id owner db = elim (get_account_by_id id db) [
    | none ↦ ok none
    | some a ↦
        if not (a.user_id == owner) then err (forbidden "Account not accessible") else ok (some a)
  ]

  unfoldable pub get_user_accounts_for_caller : ℕ → ℕ → AccountDb A.Rows → Result (List Account)
  get_user_accounts_for_caller requested caller db =
      if not (requested == caller)
      then err (forbidden "Cannot list accounts for another user")
      else ok (S.find_by_user caller db.accounts)

  unfoldable pub require_account_by_id : ℕ → AccountDb A.Rows → Result Account
  require_account_by_id id db = elim (get_account_by_id id db) [
    | none ↦ err (not_found "Account not found")
    | some a ↦ ok a
  ]

  unfoldable pub require_account_by_account_number : Text → AccountDb A.Rows → Result Account
  require_account_by_account_number number db = elim (S.find_by_number number db.accounts) [
    | none ↦ err (not_found "Account not found")
    | some a ↦ ok a
  ]

  -- The event of a change of status: into `FROZEN`, or from `FROZEN` to `ACTIVE`.
  unfoldable pub status_events : ℕ → AccountStatus → Account → List OutboxEvent → List OutboxEvent
  status_events now previous saved outbox =
      if is_frozen saved.status && not (is_frozen previous)
      then announce now account_frozen (lifecycle_payload "account.frozen" now saved) outbox
      else if is_frozen previous && Entity.is_active saved.status
      then announce now account_unfrozen (lifecycle_payload "account.unfrozen" now saved) outbox
      else outbox

  unfoldable pub update_account_status : ℕ → ℕ → AccountStatus → Action (AccountDb A.Rows) Account
  update_account_status now id status = transaction λ db. elim (A.find id db.accounts) [
    | none ↦ (err (not_found "Account not found"), db)
    | some a ↦
        let saved : Account = record a { status = status } in
        (
          ok saved,
          record {
            accounts = A.save saved db.accounts;
            outbox = status_events now a.status saved db.outbox;
          },
        )
  ]
