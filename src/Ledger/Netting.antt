-- ===== src/Ledger/Netting.antt =====
-- What the netting loop leaves in its two maps, against the sums of the lines.
use fintech_nova_pay.Common.{
  ℕ, ◌==◌, ==→eq, ==-self, ◌≡◌, refl, sym, ap, ◌∙◌, inl, inr, Bool, true, false, Option, none, some,
  List, [], ◌∷◌, if◌then◌else◌, Bool-cases, All, arith,
}
use fintech_nova_pay.Common.Int.{ℤ, pos, ◌+ℤ◌, +ℤ_assoc, add-zero_ℤ, zero-add_ℤ}
use fintech_nova_pay.Common.Result.{ok, >>=-eq-ok, ok-injective, throw_if, throw_if-eq-ok}
use fintech_nova_pay.Common.Dict.{lookup, insert, lookup-insert, get_or, is_some}
use fintech_nova_pay.Accounts.Entity.{Currency, same_currency, same_currency→eq}
use fintech_nova_pay.Decimal.{parse_scaled_amount}
use fintech_nova_pay.Ledger.Lines.{Line, Deltas, add_delta, net_lines, signed, is_mixed}
use fintech_nova_pay.Ledger.Projection.{delta_of}
use fintech_nova_pay.Ledger.Balance.{line_amount, when}

-- The sum of the lines of one account, and of those in one currency.
unfoldable pub account_sum : ℕ → List Line → ℤ
account_sum k [] = pos 0
account_sum k (e ∷ es) = when (e.account_id == k) (line_amount e) +ℤ account_sum k es

unfoldable pub currency_sum : Currency → ℕ → List Line → ℤ
currency_sum c k [] = pos 0
currency_sum c k (e ∷ es) =
    when (e.account_id == k) (when (same_currency e.currency c) (line_amount e))
    +ℤ currency_sum c k es

same_some : {A : Type 0} {a b : A} → some a ≡ some b → a ≡ b
same_some h = cc

not_mixed : (o : Option Currency) (c cu : Currency) → o ≡ some c → is_mixed o cu ≡ false → c ≡ cu
not_mixed none c cu e h = cc
not_mixed (some b) c cu e h = same_some (sym e) ∙ same_currency→eq b cu (ground arith)

module _ (a : ℕ) (cu : Currency) (x : ℤ) (d : Deltas) {d' : Deltas}
    (h : add_delta a cu x d ≡ ok d') where
  added :
      (is_mixed (lookup a d.currency_by_account) cu ≡ false)
      × (d'.delta_by_account
          ≡ insert a (get_or (pos 0) (lookup a d.delta_by_account) +ℤ x) d.delta_by_account)
      × (d'.currency_by_account ≡ insert a cu d.currency_by_account)
  unfolding add_delta
  added =
      let (u, p, q) = >>=-eq-ok (throw_if (is_mixed (lookup a d.currency_by_account) cu) _) _ h in
      (
        throw_if-eq-ok _ _ p,
        sym (ap (λ (r : Deltas). r.delta_by_account) (ok-injective q)),
        sym (ap (λ (r : Deltas). r.currency_by_account) (ok-injective q)),
      )

  pub add_delta-delta_of : (k : ℕ) → delta_of d' k ≡ delta_of d k +ℤ when (a == k) x
  add_delta-delta_of k =
      rw (added.1, lookup-insert a k _ d.delta_by_account)
        (elim (Bool-cases (a == k)) [
          | inl p ↦ rw (p, ==→eq a k p)
          | inr p ↦ rw p (sym (add-zero_ℤ _))
        ])

  pub add_delta-currency :
      (k : ℕ)
      → lookup k d'.currency_by_account
        ≡ (if a == k then some cu else lookup k d.currency_by_account)
  add_delta-currency k = rw (added.2) (lookup-insert a k cu d.currency_by_account)

  pub add_delta-keys :
      (k : ℕ)
      → is_some (lookup k d.delta_by_account) ≡ is_some (lookup k d.currency_by_account)
      → is_some (lookup k d'.delta_by_account) ≡ is_some (lookup k d'.currency_by_account)
  add_delta-keys k e = elim (Bool-cases (a == k)) [
    | inl p ↦ rw (
      added.1,
      added.2,
      lookup-insert a k _ d.delta_by_account,
      lookup-insert a k cu d.currency_by_account,
      p,
    )
    | inr p ↦
        rw
          (
            added.1,
            added.2,
            lookup-insert a k _ d.delta_by_account,
            lookup-insert a k cu d.currency_by_account,
            p,
          )
          e
  ]

  -- An account that has a currency keeps it.
  pub add_delta-kept :
      (k : ℕ) {c : Currency}
      → lookup k d.currency_by_account ≡ some c
      → lookup k d'.currency_by_account ≡ some c
  add_delta-kept k {c} e = elim (Bool-cases (a == k)) [
    | inl p ↦
        let same : c ≡ cu = not_mixed _ c cu (rw (==→eq a k p) e) added.0 in
        rw (add_delta-currency k, p, same) refl
    | inr p ↦ rw (add_delta-currency k, p) e
  ]

pub net_lines-delta_of :
    (k : ℕ) (es : List Line) (d : Deltas) {d' : Deltas}
    → net_lines es d ≡ ok d'
    → delta_of d' k ≡ delta_of d k +ℤ account_sum k es
unfolding net_lines account_sum line_amount
net_lines-delta_of k [] d h = rw (← ok-injective h) (sym (add-zero_ℤ _))
net_lines-delta_of k (e ∷ es) d h =
    let (x, p, q) = >>=-eq-ok (parse_scaled_amount e.amount) _ h in
    let (d₁, r, s) = >>=-eq-ok (add_delta e.account_id e.currency (signed e.entry_type x) d) _ q in
    rw (net_lines-delta_of k es d₁ s) (
      rw (add_delta-delta_of e.account_id e.currency (signed e.entry_type x) d r k, p)
        (+ℤ_assoc _ _ _))

net_lines-kept :
    (k : ℕ) (es : List Line) (d : Deltas) {d' : Deltas} {c : Currency}
    → net_lines es d ≡ ok d'
    → lookup k d.currency_by_account ≡ some c
    → lookup k d'.currency_by_account ≡ some c
unfolding net_lines
net_lines-kept k [] d h e = rw (← ok-injective h) e
net_lines-kept k (l ∷ es) d h e =
    let (x, p, q) = >>=-eq-ok (parse_scaled_amount l.amount) _ h in
    let (d₁, r, s) = >>=-eq-ok (add_delta l.account_id l.currency (signed l.entry_type x) d) _ q in
    net_lines-kept k es d₁ s
      (add_delta-kept l.account_id l.currency (signed l.entry_type x) d r k e)

-- Each line has the currency that the map ends with for its account.
abbrev pub InCurrency : Deltas → Line → Type 0
InCurrency d e = lookup e.account_id d.currency_by_account ≡ some e.currency

pub net_lines-InCurrency :
    (es : List Line) (d : Deltas) {d' : Deltas} → net_lines es d ≡ ok d' → All (InCurrency d') es
unfolding net_lines
net_lines-InCurrency [] d h = tt
net_lines-InCurrency (e ∷ es) d h =
    let (x, p, q) = >>=-eq-ok (parse_scaled_amount e.amount) _ h in
    let (d₁, r, s) = >>=-eq-ok (add_delta e.account_id e.currency (signed e.entry_type x) d) _ q in
    (
      net_lines-kept e.account_id es d₁ s (
          rw (
            add_delta-currency e.account_id e.currency (signed e.entry_type x) d r e.account_id,
            ==-self e.account_id,
          )),
      net_lines-InCurrency es d₁ s,
    )

-- The two maps have the same accounts.
pub net_lines-keys :
    (k : ℕ) (es : List Line) (d : Deltas) {d' : Deltas}
    → net_lines es d ≡ ok d'
    → is_some (lookup k d.delta_by_account) ≡ is_some (lookup k d.currency_by_account)
    → is_some (lookup k d'.delta_by_account) ≡ is_some (lookup k d'.currency_by_account)
unfolding net_lines
net_lines-keys k [] d h e = rw (← ok-injective h) e
net_lines-keys k (l ∷ es) d h e =
    let (x, p, q) = >>=-eq-ok (parse_scaled_amount l.amount) _ h in
    let (d₁, r, s) = >>=-eq-ok (add_delta l.account_id l.currency (signed l.entry_type x) d) _ q in
    net_lines-keys k es d₁ s
      (add_delta-keys l.account_id l.currency (signed l.entry_type x) d r k e)

when-zero : (b : Bool) → when b (pos 0) ≡ pos 0
when-zero true = refl
when-zero false = refl

pub when-add : (b : Bool) (x y : ℤ) → when b (x +ℤ y) ≡ when b x +ℤ when b y
when-add true x y = refl
when-add false x y = sym (zero-add_ℤ _)

none_not_some : {A : Type 0} {P : Type 0} {a : A} → none ≡ some a → P
none_not_some h = cc

-- An account of one currency only has lines of that currency, and no account that no line names
-- has an amount.
pub currency_sum-account_sum :
    (c : Currency) (k : ℕ) (d : Deltas) (es : List Line) {cu : Currency}
    → lookup k d.currency_by_account ≡ some cu
    → All (InCurrency d) es
    → currency_sum c k es ≡ when (same_currency cu c) (account_sum k es)
unfolding currency_sum account_sum
currency_sum-account_sum c k d [] e a = sym (when-zero (same_currency _ c))
currency_sum-account_sum c k d (l ∷ es) {cu} e a =
    let rest = currency_sum-account_sum c k d es e a.1 in
    elim (Bool-cases (l.account_id == k)) [
      | inl p ↦
          let same : l.currency ≡ cu =
            same_some (sym a.0 ∙ ap (λ i. lookup i d.currency_by_account) (==→eq _ k p) ∙ e) in
          rw (p, rest, same) (sym (when-add (same_currency cu c) _ _))
      | inr p ↦
          rw (p, rest)
            (zero-add_ℤ _ ∙ ap (when (same_currency cu c)) (sym (zero-add_ℤ (account_sum k es))))
    ]

pub currency_sum-untouched :
    (c : Currency) (k : ℕ) (d : Deltas) (es : List Line)
    → lookup k d.currency_by_account ≡ none
    → All (InCurrency d) es
    → currency_sum c k es ≡ pos 0
unfolding currency_sum
currency_sum-untouched c k d [] e a = refl
currency_sum-untouched c k d (l ∷ es) e a = elim (Bool-cases (l.account_id == k)) [
  | inl p ↦
      none_not_some (sym e ∙ ap (λ i. lookup i d.currency_by_account) (sym (==→eq _ k p)) ∙ a.0)
  | inr p ↦ rw (p, currency_sum-untouched c k d es e a.1) (zero-add_ℤ _)
]
