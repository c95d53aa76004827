-- ===== src/Common/Dict.antt =====
-- A `Map` keyed by identifiers, in insertion order, and its sorted keys.
use fintech_nova_pay.Common.Tests.{◌==◌, leb, if◌then◌else◌}
use Prim.Native.Nat.{ℕ}
use mathlib.Core.Path.{◌≡◌, refl}
use mathlib.Core.Bool.{Bool, true, false, ◌||◌}
use mathlib.Core.Option.{Option, none, some}
use mathlib.Core.List.{List, [], ◌∷◌}
use native.Mathlib.Omega.{arith}

abbrev pub Dict : Type 0 → Type 0
Dict V = List (ℕ × V)

abbrev pub elem : ℕ → List ℕ → Bool
elem k [] = false
elem k (j ∷ js) = j == k || elem k js

module _ {V : Type 0} where
  unfoldable pub lookup : ℕ → Dict V → Option V
  lookup k [] = none
  lookup k ((j, v) ∷ d) = if j == k then some v else lookup k d

  unfoldable pub insert : ℕ → V → Dict V → Dict V
  insert k v [] = (k, v) ∷ []
  insert k v ((j, w) ∷ d) = if j == k then (k, v) ∷ d else (j, w) ∷ insert k v d

  unfoldable pub keys : Dict V → List ℕ
  keys [] = []
  keys ((j, v) ∷ d) = j ∷ keys d

  abbrev pub get_or : V → Option V → V
  get_or v none = v
  get_or v (some w) = w

  abbrev pub is_some : Option V → Bool
  is_some none = false
  is_some (some v) = true

  pub lookup-insert :
      (k j : ℕ) (v : V) (d : Dict V)
      → lookup j (insert k v d) ≡ (if k == j then some v else lookup j d)
  unfolding lookup insert
  lookup-insert k j v [] = refl
  lookup-insert k j v ((i, w) ∷ d) = ground (arith, lookup-insert k j v d)

  pub elem-keys : (k : ℕ) (d : Dict V) → elem k (keys d) ≡ is_some (lookup k d)
  unfolding lookup keys
  elem-keys k [] = refl
  elem-keys k ((j, v) ∷ d) = ground (arith, elem-keys k d)

-- `[...ids].sort()`: identifiers of one width sort as their numbers do.
insert_sorted : ℕ → List ℕ → List ℕ
insert_sorted k [] = k ∷ []
insert_sorted k (j ∷ js) = if leb k j then k ∷ j ∷ js else j ∷ insert_sorted k js

unfoldable pub sort : List ℕ → List ℕ
unfolding insert_sorted
sort [] = []
sort (k ∷ ks) = insert_sorted k (sort ks)

elem-insert_sorted : (i k : ℕ) (js : List ℕ) → elem i (insert_sorted k js) ≡ elem i (k ∷ js)
unfolding insert_sorted
elem-insert_sorted i k [] = refl
elem-insert_sorted i k (j ∷ js) = ground (arith, elem-insert_sorted i k js)

pub elem-sort : (i : ℕ) (ks : List ℕ) → elem i (sort ks) ≡ elem i ks
unfolding sort
elem-sort i [] = refl
elem-sort i (k ∷ ks) = ground (arith, elem-insert_sorted i k (sort ks), elem-sort i ks)
