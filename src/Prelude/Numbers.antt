-- ===== src/Prelude/Numbers.antt =====
-- Lists of distinct numbers, which stand for identities.
use Prim.Native.Nat.{ℕ}
use mathlib.Core.Path.{◌≡◌, refl}
use mathlib.Core.Bool.{Bool, true, false, not}
use mathlib.Core.List.{List, [], ◌∷◌, ◌++◌}
use native.Mathlib.Omega.{arith}
use aiosendspin.Prelude.Tests.{if◌then◌else◌, ◌==◌}
use aiosendspin.Prelude.Lists.{any, select}

-- `x in xs`
abbrev pub has : ℕ → List ℕ → Bool
has x xs = any (λ y. y == x) xs

-- `xs.remove(x)`, `xs.discard(x)`: the first occurrence is the only one.
abbrev pub without : ℕ → List ℕ → List ℕ
without x xs = select (λ y. not (y == x)) xs

pub has-append : (x : ℕ) (xs ys : List ℕ) → has x (xs ++ ys) ≡ (if has x xs then true else has x ys)
unfolding any
has-append x [] ys = refl
has-append x (y ∷ xs) ys = ground (arith, has-append x xs ys)

pub has-without :
    (x y : ℕ) (xs : List ℕ) → has x (without y xs) ≡ (if y == x then false else has x xs)
unfolding any select
has-without x y [] = ground arith
has-without x y (z ∷ xs) = ground (arith, has-without x y xs)

pub has-single : (x y : ℕ) → has x (y ∷ []) ≡ y == x
unfolding any
has-single x y = ground arith
