-- ===== src/Prelude/Table.antt =====
-- Python's `dict` with keys that are numbers, as an association list in insertion order.
use Prim.Native.Nat.{ℕ}
use mathlib.Core.Path.{◌≡◌, refl}
use mathlib.Core.Option.{Option, none, some}
use mathlib.Core.List.{List, [], ◌∷◌}
use native.Mathlib.Omega.{arith}
use aiosendspin.Prelude.Tests.{if◌then◌else◌, ◌==◌}

abbrev pub Table {ℓ} : Type ℓ → Type ℓ
Table V = List (ℕ × V)

module _ {ℓ} {V : Type ℓ} where
  -- d.get(k)
  unfoldable pub find : ℕ → Table V → Option V
  find k [] = none
  find k ((j, v) ∷ d) = if j == k then some v else find k d

  -- d[k] = v
  unfoldable pub store : ℕ → V → Table V → Table V
  store k v [] = (k, v) ∷ []
  store k v ((j, w) ∷ d) = if j == k then (j, v) ∷ d else (j, w) ∷ store k v d

  -- d.pop(k, None)
  unfoldable pub erase : ℕ → Table V → Table V
  erase k [] = []
  erase k ((j, v) ∷ d) = let rest = erase k d in if j == k then rest else (j, v) ∷ rest

  -- d.values()
  unfoldable pub items : Table V → List V
  items [] = []
  items ((j, v) ∷ d) = v ∷ items d

  pub find-store :
      (k j : ℕ) (v : V) (d : Table V) → find j (store k v d) ≡ (if k == j then some v else find j d)
  unfolding find store
  find-store k j v [] = refl
  find-store k j v ((i, w) ∷ d) = ground (arith, find-store k j v d)

  pub find-erase :
      (k j : ℕ) (d : Table V) → find j (erase k d) ≡ (if k == j then none else find j d)
  unfolding find erase
  find-erase k j [] = ground arith
  find-erase k j ((i, w) ∷ d) = ground (arith, find-erase k j d)

  pub store-store : (k : ℕ) (v w : V) (d : Table V) → store k v (store k w d) ≡ store k v d
  unfolding store
  store-store k v w [] = ground arith
  store-store k v w ((j, u) ∷ d) = ground (arith, store-store k v w d)

  pub find-store_self : (k : ℕ) (v : V) (d : Table V) → find k (store k v d) ≡ some v
  find-store_self k v d = ground (arith, find-store k k v d)
