-- ===== src/Num/Laws.antt =====
-- What the theorems rely on of float arithmetic. Each law holds of IEEE 754 doubles under Python's
-- comparisons, NaN and the infinities included: a comparison with NaN is false, and an operand
-- that has to be a number is compared with itself first.
use oracle_deepfield.Base.{◌≡◌, true, false}
use oracle_deepfield.Num.{Float, nought, of_ℕ}

module _ (F : Type 0) ⦃fl : Float F⦄ where
  open fl use {add, sub, mul, lt, le, eq}

  pub record IsOrdered : Type 0 where
    pub lt_irrefl : (a : F) → lt a a ≡ false
    pub lt_asymm : (a b : F) → lt a b ≡ true → lt b a ≡ false
    pub lt_trans : (a b c : F) → lt a b ≡ true → lt b c ≡ true → lt a c ≡ true
    pub le_trans : (a b c : F) → le a b ≡ true → le b c ≡ true → le a c ≡ true
    pub le-lt_trans : (a b c : F) → le a b ≡ true → lt b c ≡ true → lt a c ≡ true
    pub lt-le_trans : (a b c : F) → lt a b ≡ true → le b c ≡ true → lt a c ≡ true
    pub lt→le : (a b : F) → lt a b ≡ true → le a b ≡ true
    pub lt→not-le : (a b : F) → lt a b ≡ true → le b a ≡ false
    -- an amount less itself is 0 or NaN, so at least no positive number
    pub sub_self : (a x : F) → lt nought x ≡ true → le x (sub a a) ≡ false
    -- NaN is less than nothing, and nothing is less than NaN
    pub lt_numbers : (a b : F) → lt a b ≡ true → (eq a a ≡ true) × (eq b b ≡ true)
    pub eq→le : (a b : F) → eq a b ≡ true → le a b ≡ true
    pub le_refl : (a : F) → eq a a ≡ true → le a a ≡ true
    -- two numbers are always comparable
    pub le_of_not-lt : (a b : F) → eq a a ≡ true → eq b b ≡ true → lt a b ≡ false → le b a ≡ true
    pub lt_of_not-le : (a b : F) → eq a a ≡ true → eq b b ≡ true → le a b ≡ false → lt b a ≡ true

  -- Arithmetic with the literals 0.0 and 1.0.
  pub record HasUnits : Type 0 where
    pub sub_zero : (a : F) → sub a nought ≡ a
    pub mul_one : (a : F) → mul a (of_ℕ 1) ≡ a
    pub not_unit : le (of_ℕ 1) nought ≡ false

  -- Scaling by a factor near 1: a positive amount times at most 1 is at most itself, times at least 1
  -- at least itself, and 1 - s and 1 + s are such factors for 0 ≤ s < 1.
  pub record IsScaling : Type 0 where
    pub less_than_unit :
        (s : F)
        → le nought s ≡ true
        → lt s (of_ℕ 1) ≡ true
        → (lt nought (sub (of_ℕ 1) s) ≡ true) × (le (sub (of_ℕ 1) s) (of_ℕ 1) ≡ true)
    pub more_than_unit : (s : F) → le nought s ≡ true → le (of_ℕ 1) (add (of_ℕ 1) s) ≡ true
    pub mul_le :
        (a f : F)
        → lt nought a ≡ true
        → lt nought f ≡ true
        → le f (of_ℕ 1) ≡ true
        → le (mul a f) a ≡ true
    pub le_mul : (a f : F) → lt nought a ≡ true → le (of_ℕ 1) f ≡ true → le a (mul a f) ≡ true
