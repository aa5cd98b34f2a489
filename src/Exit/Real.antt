-- ===== src/Exit/Real.antt =====
-- The numbers of the exit policy. JavaScript's doubles are not in the repository, so their type,
-- arithmetic and comparison are a parameter. What is assumed of them is that `<=` is a total order,
-- as IEEE 754 has it of numbers that are not NaN; nothing is assumed of the arithmetic.
use arivion.Prelude.{◌≡◌, ◌⊎◌, Bool, true, not, if◌then◌else◌}

pub record Real : Type 1 where
  pub Num : Type 0
  pub zero : Num
  pub one : Num
  -- the literals 0.999 and 1.0001
  pub nearly_one : Num
  pub over_one : Num
  pub add : Num → Num → Num
  pub sub : Num → Num → Num
  pub mul : Num → Num → Num
  pub div : Num → Num → Num
  pub negate : Num → Num
  pub le : Num → Num → Bool
  pub le_refl : (a : Num) → le a a ≡ true
  pub le_trans : (a b c : Num) → le a b ≡ true → le b c ≡ true → le a c ≡ true
  pub le_total : (a b : Num) → (le a b ≡ true) ⊎ (le b a ≡ true)

module _ (R : Real) where
  open R use {Num, le}

  -- `a < b`, `Math.max(a, b)` and `Math.min(a, b)`
  abbrev pub lt : Num → Num → Bool
  lt a b = not (le b a)

  abbrev pub max : Num → Num → Num
  max a b = if le a b then b else a

  abbrev pub min : Num → Num → Num
  min a b = if le a b then a else b
