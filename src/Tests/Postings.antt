-- ===== src/Tests/Postings.antt =====
-- Postings on the small bank.
use fintech_nova_pay.Common.{ℕ, ◌≡◌, refl, Bool, true, false, none, List, [], ◌∷◌, ◌⊎◌, map, take}
use fintech_nova_pay.Common.Int.{pos}
use fintech_nova_pay.Common.Result.{Result, ok, err, Exception}
use fintech_nova_pay.Common.Text.{Text}
use fintech_nova_pay.Accounts.Entity.{usd}
use fintech_nova_pay.Ledger.Entity.{
  LedgerEntryType, debit, credit, PostLedgerTransactionDto, PostLedgerEntryLineDto,
  LedgerTransactionType,
}
use fintech_nova_pay.Ledger.Store.{Db, Posted, stored, with_id}
use fintech_nova_pay.Ledger.Posting.{new_header}
use fintech_nova_pay.Ledger.Conservation.{total}
use fintech_nova_pay.Ledger.Outcome.{post-total, post-cases, Replayed, Untouched, Written}
use fintech_nova_pay.Ledger.Replay.{post-replay}
use fintech_nova_pay.Ledger.Atomicity.{post_err-Untouched, Readable}
use fintech_nova_pay.Tests.Tables.{
  account_table, transaction_table, ledger_store, ledger_db, Readable-rows,
}
use fintech_nova_pay.Common.Int.{◌+ℤ◌, ◌-ℤ◌, negate}
use fintech_nova_pay.Common.Dict.{lookup, insert, keys, sort}
use fintech_nova_pay.Common.Table.{save_all}
use fintech_nova_pay.Common.Text.{trim, to_string, big_int, pad_start, strip_zeros, same_text}
use fintech_nova_pay.Decimal.{
  scaled, parse_scaled_amount, parse_scaled_balance_field, parse_scaled_decimal,
  format_scaled_decimal,
}
use fintech_nova_pay.Decimal.Pattern.{span_digits, match_fraction, match_decimal, match_signed}
use fintech_nova_pay.Accounts.Entity.{same_currency}
use fintech_nova_pay.Ledger.Lines.{
  add_line, sum_sides, every_equal, assert_balanced_per_currency, distinct, count_from,
  assign_line_numbers, add_delta, net_lines,
}
use fintech_nova_pay.Ledger.Projection.{
  net_projection, project_account, validate_account, validate_all, project_all,
  apply_ledger_posting_projections,
}
use fintech_nova_pay.Ledger.Posting.{
  assert_reversal_metadata, line_rows, projection_lines, insert_by_line, entries_of,
  load_tx_with_entries, reload, assert_reversal_target_posted,
  validate_account_balances_before_ledger_insert, replay_winner, write_lines, insert_header,
  check_posting, post_new, post_with_shared_manager,
}
use fintech_nova_pay.Outbox.Enqueue.{enqueue_in_transaction}
use fintech_nova_pay.Tests.Tables.{find_account, sum, find_tx, taken, insert_tx}

abbrev pub twelve : Text
twelve = b'1' ∷ b'2' ∷ b'.' ∷ b'5' ∷ []

abbrev pub line : ℕ → LedgerEntryType → Text → PostLedgerEntryLineDto
line account side amount = record {
  account_id = account;
  entry_type = side;
  amount = amount;
  currency = usd;
  line_number = none;
  memo = none;
}

-- 12.5 from the first account to the second
abbrev pub transfer : Text → PostLedgerTransactionDto
transfer amount = record {
  type = LedgerTransactionType.payment;
  reverses_transaction_id = none;
  correlation_id = b'c' ∷ [];
  memo = none;
  entries = line 1 debit amount ∷ line 2 credit amount ∷ [];
}

abbrev pub is_ok : {A : Type 0} → Result A → Bool
is_ok (ok a) = true
is_ok (err e) = false

pub returned : {A S : Type 0} (x : Result A × S) → is_ok x.0 ≡ true → (a : A) × (x ≡ (ok a, x.1))
returned (ok a, s) h = (a, refl)
returned (err e, s) h = cc

pub threw :
    {A S : Type 0} (x : Result A × S) → is_ok x.0 ≡ false → (e : Exception) × (x ≡ (err e, x.1))
threw (ok a, s) h = cc
threw (err e, s) h = (e, refl)

abbrev corr : Text
corr = b'c' ∷ []

-- 1000
abbrev thousand : Text
thousand = b'1' ∷ b'0' ∷ b'0' ∷ b'0' ∷ []

abbrev run : Text → Result Posted × Db ledger_store
run amount = post_with_shared_manager ledger_store 7 (transfer amount) corr ledger_db

balances : Db ledger_store → List Text
balances db = map (λ a. a.balance) db.accounts

-- A posting moves its amount; one beyond the balance throws.
runs :
    (is_ok (run twelve).0 ≡ true)
    × (is_ok (run thousand).0 ≡ false)
    × (take 2 (balances (run twelve).1)
        ≡ (b'1' ∷ b'7' ∷ b'.' ∷ b'5' ∷ []) ∷ (b'8' ∷ b'7' ∷ b'.' ∷ b'5' ∷ []) ∷ [])
    × (transaction_table.insert (new_header ledger_store (transfer twelve) corr) []
        ≡ stored 1 (with_id 1 (new_header ledger_store (transfer twelve) corr) ∷ []))
unfolding balances ◌+ℤ◌ ◌-ℤ◌ negate lookup insert keys sort save_all trim to_string big_int
    pad_start strip_zeros same_text scaled parse_scaled_amount parse_scaled_balance_field
    parse_scaled_decimal format_scaled_decimal span_digits match_fraction match_decimal match_signed
    same_currency add_line sum_sides every_equal assert_balanced_per_currency distinct count_from
    assign_line_numbers add_delta net_lines net_projection project_account validate_account
    validate_all project_all apply_ledger_posting_projections assert_reversal_metadata line_rows
    projection_lines insert_by_line entries_of load_tx_with_entries reload
    assert_reversal_target_posted validate_account_balances_before_ledger_insert replay_winner
    write_lines insert_header check_posting post_new post_with_shared_manager enqueue_in_transaction
    find_account sum find_tx taken insert_tx
runs = (refl, refl, refl, refl)

readable : Readable account_table ledger_db.accounts
unfolding parse_scaled_decimal match_signed span_digits match_fraction trim scaled negate
readable = Readable-rows ledger_db.accounts ((pos 1000000, refl), ((pos 50000, refl), tt))

post-total_example :
    total account_table usd (1 ∷ 2 ∷ []) (run twelve).1.accounts
    ≡ total account_table usd (1 ∷ 2 ∷ []) ledger_db.accounts
unfolding distinct
post-total_example =
    post-total ledger_store usd (1 ∷ 2 ∷ []) 7 (transfer twelve) corr ledger_db refl refl
      (returned (run twelve) runs.0).1

post-cases_example :
    Replayed ledger_store
      (transfer twelve)
      corr
      (returned (run twelve) runs.0).0
      ledger_db
      (run twelve).1
    ⊎ Written ledger_store 7 (transfer twelve) corr ledger_db (run twelve).1
post-cases_example =
    post-cases ledger_store 7 (transfer twelve) corr ledger_db (returned (run twelve) runs.0).1

post_err-Untouched_example : Untouched ledger_store ledger_db (run thousand).1
post_err-Untouched_example =
    post_err-Untouched ledger_store 7 (transfer thousand) corr ledger_db readable
      (threw (run thousand) runs.1).1

post-replay_example :
    post_with_shared_manager ledger_store 9 (transfer thousand) corr (run twelve).1
    ≡ (ok (returned (run twelve) runs.0).0, (run twelve).1)
unfolding find_tx
post-replay_example =
    post-replay ledger_store 7 (transfer twelve) corr ledger_db refl runs.3
      (returned (run twelve) runs.0).1 9 (transfer thousand)
