-- ===== src/Ledger/Projected.antt =====
-- What the projection of a posting does to the accounts.
use fintech_nova_pay.Common.{
  ℕ, ◌==◌, ==→eq, ◌≡◌, refl, sym, ap, ◌∙◌, inl, inr, Bool, true, false, not, Option, none, some,
  List, [], ◌∷◌, if◌then◌else◌, Bool-cases, arith,
}
use fintech_nova_pay.Common.Int.{ℤ, pos, ◌+ℤ◌, negate, ltb_ℤ, add-zero_ℤ, zero-add_ℤ}
use fintech_nova_pay.Common.Result.{
  ok, err, >>=-eq-ok, ok-injective, throw_if, throw_if-eq-ok, or_throw, or_throw-eq-ok,
}
use fintech_nova_pay.Common.Dict.{elem, lookup, keys, sort, elem-keys, elem-sort, is_some}
use fintech_nova_pay.Common.Table.{Table, save_all}
use fintech_nova_pay.Accounts.Entity.{
  Account, account_key, Currency, same_currency, same_currency→eq,
}
use fintech_nova_pay.Decimal.{parse_scaled_decimal, format_scaled_decimal}
use fintech_nova_pay.Decimal.RoundTrip.{parse_scaled_decimal-format}
use fintech_nova_pay.Ledger.Lines.{Line, Deltas, net_lines, no_deltas}
use fintech_nova_pay.Ledger.Projection.{delta_of, is_expected, project_account, project_all}
use fintech_nova_pay.Ledger.Balance.{when, or_zero}
use fintech_nova_pay.Ledger.Netting.{
  account_sum, currency_sum, net_lines-delta_of, net_lines-InCurrency, net_lines-keys,
  currency_sum-account_sum, currency_sum-untouched, when-add,
}

-- What an account holds of a currency.
abbrev pub value : Currency → Option Account → ℤ
value c none = pos 0
value c (some a) = when (same_currency a.currency c) (or_zero (parse_scaled_decimal a.balance))

-- The steps that a projection of one account has passed.
record Passed (d : Deltas) (k : ℕ) (a u : Account) : Type 0 where
  balance : ℤ
  available : ℤ
  cap : ℤ
  currency : is_expected (lookup k d.currency_by_account) a.currency ≡ true
  balance_read : parse_scaled_decimal a.balance ≡ ok balance
  available_read : parse_scaled_decimal a.available_balance ≡ ok available
  cap_read : parse_scaled_decimal a.overdraft_limit ≡ ok cap
  covered : ltb_ℤ (available +ℤ delta_of d k) (negate cap) ≡ false
  row : u ≡ record a {
    balance = format_scaled_decimal (balance +ℤ delta_of d k);
    available_balance = format_scaled_decimal (available +ℤ delta_of d k);
  }

not-false : (b : Bool) → not b ≡ false → b ≡ true
not-false b h = ground arith

project_account-Passed :
    (d : Deltas) (k : ℕ) (a : Account) {u : Account} → project_account d k a ≡ ok u → Passed d k a u
unfolding project_account
project_account-Passed d k a h =
    let (u₁, p₁, q₁) = >>=-eq-ok (throw_if _ _) _ h in
    let (b, p₂, q₂) = >>=-eq-ok (parse_scaled_decimal a.balance) _ q₁ in
    let (v, p₃, q₃) = >>=-eq-ok (parse_scaled_decimal a.available_balance) _ q₂ in
    let (o, p₄, q₄) = >>=-eq-ok (parse_scaled_decimal a.overdraft_limit) _ q₃ in
    let (u₅, p₅, q₅) = >>=-eq-ok (throw_if _ _) _ q₄ in
    record {
      balance = b;
      available = v;
      cap = o;
      currency = not-false _ (throw_if-eq-ok _ _ p₁);
      balance_read = p₂;
      available_read = p₃;
      cap_read = p₄;
      covered = throw_if-eq-ok _ _ p₅;
      row = sym (ok-injective q₅);
    }

expected-currency : (o : Option Currency) (c : Currency) → is_expected o c ≡ true → o ≡ some c
expected-currency none c h = cc
expected-currency (some cu) c h = ap some (sym (same_currency→eq c cu h))

if_same {ℓ} : {A : Type ℓ} (b : Bool) (x : A) → (if b then x else x) ≡ x
if_same true x = refl
if_same false x = refl

-- The new row holds the old balance and the account's sum.
Passed-value :
    (c : Currency) (d : Deltas) (k : ℕ) (a u : Account)
    → Passed d k a u
    → value c (some u) ≡ value c (some a) +ℤ when (same_currency a.currency c) (delta_of d k)
Passed-value c d k a u p =
    rw (p.row, parse_scaled_decimal-format (p.balance +ℤ delta_of d k), p.balance_read)
      (when-add (same_currency a.currency c) p.balance (delta_of d k))

is_none : {A : Type 0} {o : Option A} → is_some o ≡ false → o ≡ none
is_none {o = none} h = refl
is_none {o = some a} h = cc

Passed-currency_sum :
    (c : Currency) (es : List Line) (d : Deltas) (k : ℕ) (a u : Account)
    → net_lines es no_deltas ≡ ok d
    → Passed d k a u
    → value c (some u) ≡ value c (some a) +ℤ currency_sum c k es
unfolding lookup
Passed-currency_sum c es d k a u n p =
    let l = expected-currency (lookup k d.currency_by_account) a.currency p.currency in
    Passed-value c d k a u p
    ∙ rw
        (
          currency_sum-account_sum c k d es l (net_lines-InCurrency es no_deltas n),
          net_lines-delta_of k es no_deltas n,
        )
        (ap (λ x. value c (some a) +ℤ when (same_currency a.currency c) x)
          (zero-add_ℤ (account_sum k es)))

module _ (T : Table Account account_key) where
  open T use {Rows, find, save, find-save, find-key}

  -- The row that an account has after the projection.
  settle : Deltas → ℕ → Rows → Option Account
  settle d k t = elim (find k t) [
    | none ↦ none
    | some a ↦ elim (project_account d k a) [ ok u ↦ some u | err e ↦ none ]
  ]

  settle_lem :
      (d : Deltas) (k : ℕ) (t : Rows) {a u : Account}
      → find k t ≡ some a
      → project_account d k a ≡ ok u
      → settle d k t ≡ some u
  unfolding settle
  settle_lem d k t p q = ground (arith, p, q)

  find-save_all :
      (d : Deltas) (ids : List ℕ) (t t' : Rows) (k : ℕ) {us : List Account}
      → project_all T d ids t ≡ ok us
      → find k (save_all T us t') ≡ (if elem k ids then settle d k t else find k t')
  unfolding project_all save_all
  find-save_all d [] t t' k h = rw (← ok-injective h) refl
  find-save_all d (i ∷ ids) t t' k h =
      let (a, p, q) = >>=-eq-ok (or_throw (find i t) _) _ h in
      let (u, r, s) = >>=-eq-ok (project_account d i a) _ q in
      let (us, v, w) = >>=-eq-ok (project_all T d ids t) _ s in
      let ih = find-save_all d ids t (save u t') k v in
      let there = or_throw-eq-ok (find i t) _ p in
      let same : u.id ≡ i =
        ap account_key (project_account-Passed d i a r).row ∙ find-key i t there in
      rw (← ok-injective w) (
        rw (ih, find-save k u t', same)
          (elim (Bool-cases (i == k)) [
            | inl e ↦
                let fresh : settle d k t ≡ some u = rw (← ==→eq i k e) (settle_lem d i t there r) in
                rw (e, fresh) (if_same (elem k ids) (some u))
            | inr e ↦ rw e refl
          ]))

  -- Among the listed accounts each one is found and projected.
  project_all-elem :
      (d : Deltas) (ids : List ℕ) (t : Rows) (k : ℕ) {us : List Account}
      → project_all T d ids t ≡ ok us
      → elem k ids ≡ true
      → (a : Account) × (u : Account) × (find k t ≡ some a) × (project_account d k a ≡ ok u)
  unfolding project_all
  project_all-elem d [] t k h e = cc
  project_all-elem d (i ∷ ids) t k h e =
      let (a, p, q) = >>=-eq-ok (or_throw (find i t) _) _ h in
      let (u, r, s) = >>=-eq-ok (project_account d i a) _ q in
      let (us, v, w) = >>=-eq-ok (project_all T d ids t) _ s in
      elim (Bool-cases (i == k)) [
        | inl z ↦ (a, u, rw (← ==→eq i k z) (or_throw-eq-ok (find i t) _ p), rw (← ==→eq i k z) r)
        | inr z ↦ project_all-elem d ids t k v (ground (arith, z))
      ]

  -- When the lines net and every named account passes its projection, the saved rows change what
  -- each account holds of each currency by the sum of its lines in that currency.
  pub project_all-value :
      (c : Currency) (es : List Line) (d : Deltas) (t : Rows) (k : ℕ) {us : List Account}
      → net_lines es no_deltas ≡ ok d
      → project_all T d (sort (keys d.delta_by_account)) t ≡ ok us
      → value c (find k (save_all T us t)) ≡ value c (find k t) +ℤ currency_sum c k es
  unfolding lookup
  project_all-value c es d t k n h =
      let ids = sort (keys d.delta_by_account) in
      let named : elem k ids ≡ is_some (lookup k d.currency_by_account) =
        elem-sort k (keys d.delta_by_account)
        ∙ elem-keys k d.delta_by_account
        ∙ net_lines-keys k es no_deltas n refl in
      elim (Bool-cases (elem k ids)) [
        | inl e ↦
            let (a, u, p, q) = project_all-elem d ids t k h e in
            rw (find-save_all d ids t t k h, e, settle_lem d k t p q, p)
              (Passed-currency_sum c es d k a u n (project_account-Passed d k a q))
        | inr e ↦
            rw
              (
                find-save_all d ids t t k h,
                e,
                currency_sum-untouched c k d es (is_none (sym named ∙ e))
                    (net_lines-InCurrency es no_deltas n),
              )
              (sym (add-zero_ℤ _))
      ]
