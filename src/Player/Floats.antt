-- ===== src/Player/Floats.antt =====
-- The finite floating-point numbers that `set_group_volume` computes with, as a parameter, with
-- what it relies on: comparisons with the two ends of a volume, and that `round` keeps these ends.
use aiosendspin.Prelude.{ℕ, ◌≤◌, ◌≡◌, Bool, false}
use aiosendspin.Prelude.Int.{ℤ, pos, ◌≤ℤ◌}

pub record Floats (F : Type 0) : Type 0 where
  pub of_ℕ : ℕ → F
  pub plus : F → F → F
  pub minus : F → F → F
  pub over : F → F → F
  pub less : F → F → Bool
  pub round : F → ℤ
  pub less_of_ℕ : (m n : ℕ) → n ≤ m → less (of_ℕ m) (of_ℕ n) ≡ false
  pub round_low : (x : F) (n : ℕ) → less x (of_ℕ n) ≡ false → pos n ≤ℤ round x
  pub round_high : (x : F) (n : ℕ) → less (of_ℕ n) x ≡ false → round x ≤ℤ pos n
