-- ===== src/Accounts/Entity.antt =====
-- The account row and its enumerations (modules/accounts/entities and enums). Creation and update
-- times are written by the database and read by none of the code here.
use fintech_nova_pay.Common.{ℕ, String, ◌≡◌, Bool, true, false, ◌==◌, arith}
use fintech_nova_pay.Common.Text.{Text}

pub data Currency : Type 0 where
  usd eur gbp jpy chf cad aud : Currency

pub data AccountStatus : Type 0 where
  pending active frozen closed : AccountStatus

pub record Account : Type 0 where
  pub id : ℕ
  pub user_id : ℕ
  pub account_number : Text
  pub currency : Currency
  pub balance : Text
  pub available_balance : Text
  pub status : AccountStatus
  pub overdraft_limit : Text

abbrev pub account_key : Account → ℕ
account_key a = a.id

currency_index : Currency → ℕ
currency_index usd = 0
currency_index eur = 1
currency_index gbp = 2
currency_index jpy = 3
currency_index chf = 4
currency_index cad = 5
currency_index aud = 6

-- `===` on currencies
unfoldable pub same_currency : Currency → Currency → Bool
unfolding currency_index
same_currency a b = currency_index a == currency_index b

pub same_currency_self : (a : Currency) → same_currency a a ≡ true
unfolding same_currency
same_currency_self a = ground arith

pub same_currency→eq : (a b : Currency) → same_currency a b ≡ true → a ≡ b
unfolding same_currency
same_currency→eq usd b h = ground arith
same_currency→eq eur b h = ground arith
same_currency→eq gbp b h = ground arith
same_currency→eq jpy b h = ground arith
same_currency→eq chf b h = ground arith
same_currency→eq cad b h = ground arith
same_currency→eq aud b h = ground arith

abbrev pub is_active : AccountStatus → Bool
is_active active = true
is_active _ = false

abbrev pub currency_name : Currency → String
currency_name usd = "USD"
currency_name eur = "EUR"
currency_name gbp = "GBP"
currency_name jpy = "JPY"
currency_name chf = "CHF"
currency_name cad = "CAD"
currency_name aud = "AUD"
