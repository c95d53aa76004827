-- ===== src/Fx/Expiry.antt =====
-- What the sweep does to the locks.
use fintech_nova_pay.Common.{
  ℕ, ◌≤◌, ◌≡◌, refl, sym, ◌∙◌, ◌==◌, ==→eq, ltb, ◌⊎◌, inl, inr, true, false, not, ◌||◌, Option,
  none, some, List, [], ◌∷◌, All, map, Bool-cases, arith,
}
use mathlib.Core.Path.{subst}
use fintech_nova_pay.Common.Dict.{elem}
use fintech_nova_pay.Ledger.Lines.{distinct}
use fintech_nova_pay.Fx.Entity.{FxRateLock, rate_lock_key, is_active_lock}
use fintech_nova_pay.Fx.Store.{FxStore, FxDb, enqueue_fx_event}
use fintech_nova_pay.Fx.Sweep.{expire_lock, sweep_lock, sweep_locks, sweep_expired_locks, cap}

-- The lock as it was, or an active lock whose time is up, marked so.
abbrev pub Expires : ℕ → FxRateLock → FxRateLock → Type 0
Expires now l l' =
    (l' ≡ l) ⊎ ((is_active_lock l.status ≡ true) × (l.expires_at ≤ now) × (l' ≡ expire_lock l))

abbrev pub SweptRow : ℕ → Option FxRateLock → Option FxRateLock → Type 0
SweptRow now none none = Unit
SweptRow now (some l) (some l') = Expires now l l'
SweptRow now _ _ = ⊥

SweptRow-refl : (now : ℕ) (o : Option FxRateLock) → SweptRow now o o
SweptRow-refl now none = tt
SweptRow-refl now (some l) = inl refl

Expires-trans : (now : ℕ) (l m n : FxRateLock) → Expires now l m → Expires now m n → Expires now l n
unfolding expire_lock
Expires-trans now l m n (inl e) y = subst (λ x. Expires now x n) e y
Expires-trans now l m n (inr (a, b, e)) (inl f) = inr (a, b, f ∙ e)
Expires-trans now l m n (inr (a, b, e)) (inr (c, d, f)) = absurd (ground (arith, e, c))

SweptRow-trans :
    (now : ℕ) (a b c : Option FxRateLock) → SweptRow now a b → SweptRow now b c → SweptRow now a c
SweptRow-trans now none none none x y = tt
SweptRow-trans now none none (some l) x y = elim y [ ]
SweptRow-trans now none (some l) c x y = elim x [ ]
SweptRow-trans now (some l) none c x y = elim x [ ]
SweptRow-trans now (some l) (some m) none x y = elim y [ ]
SweptRow-trans now (some l) (some m) (some n) x y = Expires-trans now l m n x y

expire_lock-id : (l : FxRateLock) → (expire_lock l).id ≡ l.id
unfolding expire_lock
expire_lock-id l = refl

module _ (S : FxStore) where
  open S use {locks as K}

  abbrev pub Swept : ℕ → K.table.Rows → K.table.Rows → Type 0
  Swept now t t' = (k : ℕ) → SweptRow now (K.table.find k t) (K.table.find k t')

  abbrev Found : K.table.Rows → FxRateLock → Type 0
  Found t l = K.table.find l.id t ≡ some l

  -- A round leaves the rows as they were, or saves its lock as expired.
  sweep_lock-locks :
      (now : ℕ) (l : FxRateLock) (x : ℕ × FxDb S)
      → ((sweep_lock S now l x).1.locks ≡ x.1.locks)
        ⊎ ((is_active_lock l.status ≡ true)
            × (l.expires_at ≤ now)
            × ((sweep_lock S now l x).1.locks ≡ K.table.save (expire_lock l) x.1.locks))
  unfolding sweep_lock enqueue_fx_event
  sweep_lock-locks now l (n, db) =
      elim (Bool-cases (not (is_active_lock l.status) || ltb now l.expires_at)) [
        | inl e ↦ inl (rw e refl)
        | inr e ↦ inr (ground (arith, e), ground (arith, e), rw e refl)
      ]

  save-Swept :
      (now : ℕ) (l : FxRateLock) (t : K.table.Rows)
      → Found t l
      → is_active_lock l.status ≡ true
      → l.expires_at ≤ now
      → Swept now t (K.table.save (expire_lock l) t)
  save-Swept now l t f a b k = elim (Bool-cases ((expire_lock l).id == k)) [
    | inl same ↦
        let here : l.id ≡ k = sym (expire_lock-id l) ∙ ==→eq (expire_lock l).id k same in
        rw (K.table.find-save k (expire_lock l) t, same, ← here, f) (inr (a, b, refl))
    | inr other ↦
        rw (K.table.find-save k (expire_lock l) t, other) (SweptRow-refl now (K.table.find k t))
  ]

  sweep_lock-Swept :
      (now : ℕ) (l : FxRateLock) (x : ℕ × FxDb S)
      → Found x.1.locks l
      → Swept now x.1.locks (sweep_lock S now l x).1.locks
  sweep_lock-Swept now l x f k = elim (sweep_lock-locks now l x) [
    | inl e ↦ rw e (SweptRow-refl now (K.table.find k x.1.locks))
    | inr (a, b, e) ↦ rw e (save-Swept now l x.1.locks f a b k)
  ]

  -- The other candidates are as they were.
  sweep_lock-others :
      (now : ℕ) (l : FxRateLock) (x : ℕ × FxDb S) (ls : List FxRateLock)
      → elem l.id (map rate_lock_key ls) ≡ false
      → All (Found x.1.locks) ls
      → All (Found (sweep_lock S now l x).1.locks) ls
  sweep_lock-others now l x [] n f = tt
  sweep_lock-others now l x (m ∷ ls) n (f, fs) =
      let apart : (m.id == l.id) ≡ false = ground (arith, n) in
      let apart' : ((expire_lock l).id == m.id) ≡ false =
        rw (expire_lock-id l) (ground (arith, apart)) in
      (
        elim (sweep_lock-locks now l x) [
          | inl e ↦ rw e f
          | inr (a, b, e) ↦ rw (e, K.table.find-save m.id (expire_lock l) x.1.locks, apart') f
        ],
        sweep_lock-others now l x ls (ground (arith, n, apart)) fs,
      )

  sweep_locks-Swept :
      (now : ℕ) (ls : List FxRateLock) (x : ℕ × FxDb S)
      → distinct (map rate_lock_key ls) ≡ true
      → All (Found x.1.locks) ls
      → Swept now x.1.locks (sweep_locks S now ls x).1.locks
  unfolding sweep_locks distinct
  sweep_locks-Swept now [] x d f k = SweptRow-refl now (K.table.find k x.1.locks)
  sweep_locks-Swept now (l ∷ ls) x d (f, fs) k =
      let y = sweep_lock S now l x in
      let alone : elem l.id (map rate_lock_key ls) ≡ false = ground (arith, d) in
      let rest : distinct (map rate_lock_key ls) ≡ true = ground (arith, d) in
      SweptRow-trans now (K.table.find k x.1.locks) (K.table.find k y.1.locks)
        (K.table.find k (sweep_locks S now ls y).1.locks) (sweep_lock-Swept now l x f k)
        (sweep_locks-Swept now ls y rest (sweep_lock-others now l x ls alone fs) k)

  -- The sweep changes a lock only if it was active and its time is up, and then only its status,
  -- to `EXPIRED`; it makes and drops none.
  pub sweep_expired_locks-Swept :
      (now limit : ℕ) (db : FxDb S)
      → Swept now db.locks (sweep_expired_locks S now limit db).1.locks
  unfolding sweep_expired_locks
  sweep_expired_locks-Swept now limit db =
      sweep_locks-Swept now (K.find_expired now (cap limit) db.locks) (0, db)
        (K.find_expired-distinct now (cap limit) db.locks)
        (K.find_expired-found now (cap limit) db.locks)
