-- ===== src/Examples/Fixed.antt =====
-- Fixed-point numbers, in thousandths: numbers that the theorems on exits can be applied to.
use arivion.Prelude.{
  ℕ, ◌+◌, ◌-◌, ◌*◌, ◌/◌, ℤ, pos, negsuc, pos_part, neg_part, ◌≡◌, ◌⊎◌, Bool, true, leb, arith,
  if◌then◌else◌,
}
use arivion.Exit.Real.{Real}

-- `p - n`
abbrev diff : ℕ → ℕ → ℤ
diff p n = if leb n p then pos (p - n) else negsuc (n - p - 1)

abbrev le_parts : ℤ → ℤ → Bool
le_parts a b = leb (pos_part a + neg_part b) (pos_part b + neg_part a)

pub le_parts_refl : (a : ℤ) → le_parts a a ≡ true
le_parts_refl a = ground arith

pub le_parts_trans : (a b c : ℤ) → le_parts a b ≡ true → le_parts b c ≡ true → le_parts a c ≡ true
le_parts_trans a b c p q = ground arith

pub le_parts_total : (a b : ℤ) → (le_parts a b ≡ true) ⊎ (le_parts b a ≡ true)
le_parts_total a b = ground arith

abbrev minus : ℤ → ℤ → ℤ
minus a b = diff (pos_part a + neg_part b) (neg_part a + pos_part b)

abbrev times : ℤ → ℤ → ℤ
times a b =
    diff ((pos_part a * pos_part b + neg_part a * neg_part b) / 1000)
      ((pos_part a * neg_part b + neg_part a * pos_part b) / 1000)

-- for a positive divisor
abbrev over : ℤ → ℤ → ℤ
over a b = diff (pos_part a * 1000 / pos_part b) (neg_part a * 1000 / pos_part b)

abbrev pub thousandths : Real
thousandths = record {
  Num = ℤ;
  zero = pos 0;
  one = pos 1000;
  nearly_one = pos 999;
  over_one = pos 1001;
  add = λ a b. diff (pos_part a + pos_part b) (neg_part a + neg_part b);
  sub = minus;
  mul = times;
  div = over;
  negate = λ a. diff (neg_part a) (pos_part a);
  le = le_parts;
  le_refl = le_parts_refl;
  le_trans = le_parts_trans;
  le_total = le_parts_total;
}
