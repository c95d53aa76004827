-- ===== src/Ledger/Projection.antt =====
-- The loops over the touched accounts: `applyLedgerPostingProjections` of
-- modules/accounts/service/accounts.service.ts, and the second half of
-- `validateAccountBalancesBeforeLedgerInsert` of posting.service.ts. Row locks change no value.
use fintech_nova_pay.Common.{ℕ, Bool, false, not, Option, none, some, List, [], ◌∷◌}
use fintech_nova_pay.Common.Int.{ℤ, pos, ◌+ℤ◌, negate, ltb_ℤ}
use fintech_nova_pay.Common.Result.{
  Result, ok, bad_request, not_found, ◌>>=◌, ◌>>◌, throw_if, or_throw,
}
use fintech_nova_pay.Common.Dict.{lookup, keys, sort, get_or}
use fintech_nova_pay.Common.Table.{Table, save_all}
use fintech_nova_pay.Accounts.Entity.{Account, account_key, Currency, same_currency, is_active}
use fintech_nova_pay.Decimal.{
  parse_scaled_decimal, parse_scaled_balance_field, format_scaled_decimal,
}
use fintech_nova_pay.Ledger.Lines.{Deltas, add_delta, no_deltas}

-- `LedgerPostedProjectionLine`
pub record ProjectionLine : Type 0 where
  pub account_id : ℕ
  pub currency : Currency
  pub scaled_signed_delta : ℤ

unfoldable pub net_projection : List ProjectionLine → Deltas → Result Deltas
net_projection [] d = ok d
net_projection (l ∷ ls) d =
    add_delta l.account_id l.currency l.scaled_signed_delta d >>= net_projection ls

-- `account.currency === currencyByAccount.get(id)`
abbrev pub is_expected : Option Currency → Currency → Bool
is_expected none c = false
is_expected (some e) c = same_currency c e

abbrev pub delta_of : Deltas → ℕ → ℤ
delta_of d id = get_or (pos 0) (lookup id d.delta_by_account)

-- The new row of one account.
unfoldable pub project_account : Deltas → ℕ → Account → Result Account
project_account d id a = do
  throw_if (not (is_expected (lookup id d.currency_by_account) a.currency))
      (bad_request "Ledger line currency does not match account currency")
  balance ← parse_scaled_decimal a.balance
  available ← parse_scaled_decimal a.available_balance
  overdraft_cap ← parse_scaled_decimal a.overdraft_limit
  throw_if (ltb_ℤ (available +ℤ delta_of d id) (negate overdraft_cap))
      (bad_request "Insufficient available balance for this ledger posting")
  ok (record a {
    balance = format_scaled_decimal (balance +ℤ delta_of d id);
    available_balance = format_scaled_decimal (available +ℤ delta_of d id);
  })

-- The checks before the ledger rows are written.
unfoldable pub validate_account : Deltas → ℕ → Account → Result (Unit {0})
validate_account d id a = do
  throw_if (not (is_active a.status)) (bad_request "Only ACTIVE accounts may be posted against")
  throw_if (not (is_expected (lookup id d.currency_by_account) a.currency))
      (bad_request "Ledger line currency does not match account currency")
  available ← parse_scaled_balance_field a.available_balance
  overdraft ← parse_scaled_balance_field a.overdraft_limit
  throw_if (ltb_ℤ (available +ℤ delta_of d id) (negate overdraft))
      (bad_request "Insufficient available balance for this ledger posting")

module _ (T : Table Account account_key) where
  open T use {Rows, find}

  unfoldable pub validate_all : Deltas → List ℕ → Rows → Result (Unit {0})
  validate_all d [] t = ok tt
  validate_all d (id ∷ ids) t =
      or_throw (find id t) (not_found "Account not found for ledger posting") >>= λ account.
      validate_account d id account >>= λ _. validate_all d ids t

  unfoldable pub project_all : Deltas → List ℕ → Rows → Result (List Account)
  project_all d [] t = ok []
  project_all d (id ∷ ids) t =
      or_throw (find id t) (not_found "Account not found for ledger projection") >>= λ account.
      project_account d id account >>= λ updated.
      project_all d ids t >>= λ rest. ok (updated ∷ rest)

  unfoldable pub apply_ledger_posting_projections : List ProjectionLine → Rows → Result Rows
  apply_ledger_posting_projections lines t = net_projection lines no_deltas >>= λ d.
      project_all d (sort (keys d.delta_by_account)) t >>= λ updated. ok (save_all T updated t)
