-- ===== src/Common/Action.antt =====
-- A handler inside a database transaction: state and exceptions. The state comes back after a
-- throw too, since what was written stays written until somebody rolls back.
use fintech_nova_pay.Common.Result.{Result, ok, err, Exception, Result-cases}
use mathlib.Core.Path.{◌≡◌, sym, ap}
use mathlib.Core.Logic.{◌⊎◌, inl, inr}
use native.Mathlib.Omega.{arith}

abbrev pub Action : Type 0 → Type 0 → Type 0
Action S A = S → Result A × S

infixl 5 ◌>>=◌ ◌>>◌
abbrev pub ◌>>=◌ : {S A B : Type 0} → Action S A → (A → Action S B) → Action S B
◌>>=◌ m f s = let (r, s') = m s in elim r [ ok a ↦ f a s' | err e ↦ (err e, s') ]

abbrev pub ◌>>◌ : {S A B : Type 0} → Action S A → Action S B → Action S B
m >> k = m >>= λ _. k

abbrev pub pure : {S A : Type 0} → A → Action S A
pure a s = (ok a, s)

abbrev pub throw : {S A : Type 0} → Exception → Action S A
throw e s = (err e, s)

abbrev pub lift : {S A : Type 0} → Result A → Action S A
lift r s = (r, s)

abbrev pub gets : {S A : Type 0} → (S → A) → Action S A
gets f s = (ok (f s), s)

abbrev pub modify : {S : Type 0} → (S → S) → Action S (Unit {0})
modify f s = (ok tt, f s)

abbrev rolled_back : {S A : Type 0} → S → Result A × S → Result A × S
rolled_back s (ok a, s') = (ok a, s')
rolled_back s (err e, s') = (err e, s)

-- `dataSource.transaction(body)`: commits what the body wrote, or undoes it when it throws.
abbrev pub transaction : {S A : Type 0} → Action S A → Action S A
transaction m s = rolled_back s (m s)

-- `try { m } catch (e) { handler(e) }`
abbrev pub catch : {S A : Type 0} → Action S A → (Exception → Action S A) → Action S A
catch m handler s = let (r, s') = m s in elim r [ ok a ↦ (ok a, s') | err e ↦ handler e s' ]

err_not_ok :
    {S A P : Type 0} {x : Exception} {a : A} {s s' : S}
    → ◌≡◌ {A = Result A × S} (err x, s) (ok a, s')
    → P
err_not_ok h = cc

-- A step that reads the state and may throw has passed, and the rest has run on the same state.
pub read-eq-ok :
    {S A B : Type 0} (g : S → Result A) (f : A → Action S B) (s : S) {b : B} {s' : S}
    → ((λ s₁. (g s₁, s₁)) >>= f) s ≡ (ok b, s')
    → (a : A) × (g s ≡ ok a) × (f a s ≡ (ok b, s'))
read-eq-ok g f s h = elim (Result-cases (g s)) [
  | inl (a, e) ↦ (a, e, rw e at h)
  | inr (x, e) ↦ err_not_ok (rw e at h)
]

-- Such a step that ends in an exception has thrown it itself, with the state as it was, or has
-- passed.
pub read-eq-err :
    {S A B : Type 0} (g : S → Result A) (f : A → Action S B) (s : S) {x : Exception} {s' : S}
    → ((λ s₁. (g s₁, s₁)) >>= f) s ≡ (err x, s')
    → (s' ≡ s) ⊎ ((a : A) × (g s ≡ ok a) × (f a s ≡ (err x, s')))
read-eq-err g f s h = elim (Result-cases (g s)) [
  | inl (a, e) ↦ inr (a, e, rw e at h)
  | inr (y, e) ↦ inl (sym (ap (λ p. p.1) (rw e at h)))
]

-- A transaction leaves the state as it was or as the body left it.
pub transaction-state :
    {S A : Type 0} (m : Action S A) (s : S)
    → ((transaction m s).1 ≡ s) ⊎ ((transaction m s).1 ≡ (m s).1)
transaction-state m s = elim (Result-cases (m s).0) [
  | inl (a, e) ↦ inr (ground (arith, e))
  | inr (x, e) ↦ inl (ground (arith, e))
]

-- A transaction that returns has committed what its body returned.
pub transaction-eq-ok :
    {S A : Type 0} (m : Action S A) (s : S) {a : A} {s' : S}
    → transaction m s ≡ (ok a, s')
    → m s ≡ (ok a, s')
transaction-eq-ok m s {a} {s'} h = elim (Result-cases (m s).0) [
  | inl (b, e) ↦ ground (arith, e, h)
  | inr (x, e) ↦ absurd (ground (arith, e, h))
]
