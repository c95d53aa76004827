-- ===== src/Common/Table.antt =====
-- A table of rows with a numeric primary key, as an `EntityManager` offers it: `findOne` by key and
-- `save`. The mapper and the database are no part of the repository; the fields after them state
-- their documented behaviour.
use fintech_nova_pay.Common.Tests.{◌==◌, if◌then◌else◌}
use Prim.Native.Nat.{ℕ}
use mathlib.Core.Path.{◌≡◌}
use mathlib.Core.Option.{Option, some}
use mathlib.Core.List.{List, [], ◌∷◌}

pub record Table (Row : Type 0) (key : Row → ℕ) : Type 1 where
  pub Rows : Type 0
  pub find : ℕ → Rows → Option Row
  pub save : Row → Rows → Rows
  -- A saved row is found again under its key, and the other rows are as they were.
  pub find-save :
      (k : ℕ) (r : Row) (t : Rows) → find k (save r t) ≡ (if key r == k then some r else find k t)
  -- What is found under a key has that key.
  pub find-key : (k : ℕ) (t : Rows) {r : Row} → find k t ≡ some r → key r ≡ k

module _ {Row : Type 0} {key : Row → ℕ} (T : Table Row key) where
  open T use {Rows, save}

  -- `manager.save(Entity, rows)`
  unfoldable pub save_all : List Row → Rows → Rows
  save_all [] t = t
  save_all (r ∷ rs) t = save_all rs (save r t)
