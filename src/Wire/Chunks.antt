-- ===== src/Wire/Chunks.antt =====
-- The chunks of noise/wire.py are the message's data, in order, and fit their frames.
use aiosendspin.Prelude.{
  ℕ, zero, suc, ◌+◌, ◌≤◌, ◌<◌, ◌≡◌, sym, ap, ◌∙◌, inl, inr, ◌++◌, ltb, Bool-cases, length,
  length-take, take, drop, take-append-drop, drop-drop, drop_all, concat, All, arith,
}
use aiosendspin.Wire.Constants.{Bytes}
use aiosendspin.Wire.Fragment.{slices}

-- Enough rounds give back all that stands from `start` on.
pub concat-slices :
    (fuel start cap : ℕ) (xs : Bytes)
    → 0 < cap
    → length xs ≤ start + fuel
    → concat (slices fuel start cap xs) ≡ drop start xs
unfolding slices
concat-slices zero start cap xs pos enough = sym (drop_all start xs (omega arith))
concat-slices (suc fuel) start cap xs pos enough = elim (Bool-cases (ltb start (length xs))) [
  | inl inside ↦ rw inside (
      rw (concat-slices fuel (start + cap) cap xs pos (omega arith)) (
        ap (λ (zs : Bytes). take cap (drop start xs) ++ zs) (sym (drop-drop start cap xs))
        ∙ take-append-drop cap (drop start xs)))
  | inr outside ↦ rw outside (sym (drop_all start xs (ground arith)))
]

pub slices-le :
    (fuel start cap : ℕ) (xs : Bytes) → All (λ chunk. length chunk ≤ cap) (slices fuel start cap xs)
unfolding slices
slices-le zero start cap xs = tt
slices-le (suc fuel) start cap xs = elim (Bool-cases (ltb start (length xs))) [
  | inl inside ↦
      rw inside
        (omega (arith, length-take cap (drop start xs)), slices-le fuel (start + cap) cap xs)
  | inr outside ↦ rw outside tt
]
