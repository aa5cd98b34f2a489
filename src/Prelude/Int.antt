-- ===== src/Prelude/Int.antt =====
-- Signed integers over the native numbers, by their two parts.
use Prim.Native.Nat.{ℕ, zero, suc}
use mathlib.Core.Path.{◌≡◌, refl}

-- `negsuc n` is -(n + 1).
pub data ℤ : Type 0 where
  pos : ℕ → ℤ
  negsuc : ℕ → ℤ

abbrev pub pos_part : ℤ → ℕ
pos_part (pos n) = n
pos_part (negsuc n) = 0

abbrev pub neg_part : ℤ → ℕ
neg_part (pos n) = 0
neg_part (negsuc n) = suc n

-- `-n`
pub neg : ℕ → ℤ
neg zero = pos 0
neg (suc n) = negsuc n

pub pos_part-neg : (n : ℕ) → pos_part (neg n) ≡ 0
unfolding neg
pos_part-neg zero = refl
pos_part-neg (suc n) = refl

pub neg_part-neg : (n : ℕ) → neg_part (neg n) ≡ n
unfolding neg
neg_part-neg zero = refl
neg_part-neg (suc n) = refl
