-- ===== src/Num/Fixed.antt =====
-- A concrete arithmetic for the tests and the examples: decimals with eight places, rounded down,
-- with one infinity and NaN. It meets every law that the theorems ask for.
use oracle_deepfield.Base.{
  ℕ, zero, suc, ◌+◌, ◌-◌, ◌*◌, ◌/◌, ◌^◌, ◌≤◌, ◌≡◌, refl, Bool, true, false, arith, ◌==◌,
  if◌then◌else◌,
}
use native.Mathlib.Nat.{mul-le-mul_left}
use oracle_deepfield.Base.Int.{ℤ, pos, negsuc, ◌+ℤ◌, ◌-ℤ◌, ◌*ℤ◌, div_ℕ, ltb_ℤ, leb_ℤ, eqb_ℤ}
use oracle_deepfield.Num.{Float}
use oracle_deepfield.Num.Laws.{IsOrdered, HasUnits, IsScaling}

pub data Fixed : Type 0 where
  num : ℤ → Fixed
  infinity nan : Fixed

abbrev pub scale : ℕ
scale = 100_000_000

abbrev map₂ : (ℤ → ℤ → Fixed) → Fixed → Fixed → Fixed
map₂ f (num a) (num b) = f a b
map₂ f (num a) infinity = infinity
map₂ f infinity (num b) = infinity
map₂ f infinity infinity = infinity
map₂ f _ _ = nan

abbrev minus : Fixed → Fixed → Fixed
minus (num a) (num b) = num (a -ℤ b)
minus infinity (num b) = infinity
minus _ _ = nan

-- a / b at the scale; a quotient by zero is NaN
unfoldable pub quotient : ℤ → ℤ → Fixed
unfolding div_ℕ ◌*ℤ◌ ◌-ℤ◌
quotient a (pos zero) = nan
quotient a (pos (suc n)) = num (div_ℕ (a *ℤ pos scale) (suc n))
quotient a (negsuc n) = num (div_ℕ ((pos 0 -ℤ a) *ℤ pos scale) (suc n))

-- whole units, rounded up
unfoldable pub ceiling : ℤ → ℤ
ceiling (pos n) = pos ((n + scale - 1) / scale * scale)
ceiling (negsuc n) = pos 0 -ℤ pos (suc n / scale * scale)

-- rounded to d places, halves up; a place beyond the eighth changes nothing
unfoldable pub rounded : ℤ → ℕ → ℤ
rounded (pos n) d =
    let u = scale / 10 ^ d in if u == 0 then pos n else pos ((2 * n + u) / (2 * u) * u)
rounded (negsuc n) d = negsuc n

abbrev flt : Fixed → Fixed → Bool
flt (num a) (num b) = ltb_ℤ a b
flt (num a) infinity = true
flt _ _ = false

abbrev fle : Fixed → Fixed → Bool
fle (num a) (num b) = leb_ℤ a b
fle (num a) infinity = true
fle infinity infinity = true
fle _ _ = false

abbrev feq : Fixed → Fixed → Bool
feq (num a) (num b) = eqb_ℤ a b
feq infinity infinity = true
feq _ _ = false

abbrev fabs : Fixed → Fixed
fabs (num (pos n)) = num (pos n)
fabs (num (negsuc n)) = num (pos (suc n))
fabs x = x

abbrev fround : Fixed → ℕ → Fixed
fround (num a) d = num (rounded a d)
fround x d = x

abbrev fceil : Fixed → Fixed
fceil (num a) = num (ceiling a)
fceil x = x

instance abbrev pub fixed : Float Fixed
fixed = record {
  add = map₂ (λ a b. num (a +ℤ b));
  sub = minus;
  mul = map₂ (λ a b. num (div_ℕ (a *ℤ b) scale));
  div = map₂ quotient;
  abs = fabs;
  lt = flt;
  le = fle;
  eq = feq;
  dec = λ m k. num (pos (m * scale / 10 ^ k));
  inf = infinity;
  is_inf = λ x. elim x [ infinity ↦ true | _ ↦ false ];
  is_nan = λ x. elim x [ nan ↦ true | _ ↦ false ];
  round = fround;
  ceil = fceil;
}

lt_asymm_lem : (a b : Fixed) → flt a b ≡ true → flt b a ≡ false
lt_asymm_lem (num a) (num b) h = ground arith
lt_asymm_lem _ _ h = ground arith

lt_trans_lem : (a b c : Fixed) → flt a b ≡ true → flt b c ≡ true → flt a c ≡ true
lt_trans_lem (num a) (num b) (num c) h k = ground arith
lt_trans_lem _ _ _ h k = ground arith

le_trans_lem : (a b c : Fixed) → fle a b ≡ true → fle b c ≡ true → fle a c ≡ true
le_trans_lem (num a) (num b) (num c) h k = ground arith
le_trans_lem _ _ _ h k = ground arith

le-lt_trans_lem : (a b c : Fixed) → fle a b ≡ true → flt b c ≡ true → flt a c ≡ true
le-lt_trans_lem (num a) (num b) (num c) h k = ground arith
le-lt_trans_lem _ _ _ h k = ground arith

lt-le_trans_lem : (a b c : Fixed) → flt a b ≡ true → fle b c ≡ true → flt a c ≡ true
lt-le_trans_lem (num a) (num b) (num c) h k = ground arith
lt-le_trans_lem _ _ _ h k = ground arith

lt_irrefl_lem : (a : Fixed) → flt a a ≡ false
lt_irrefl_lem (num a) = ground arith
lt_irrefl_lem _ = refl

lt→le_lem : (a b : Fixed) → flt a b ≡ true → fle a b ≡ true
lt→le_lem (num a) (num b) h = ground arith
lt→le_lem _ _ h = ground arith

lt→not-le_lem : (a b : Fixed) → flt a b ≡ true → fle b a ≡ false
lt→not-le_lem (num a) (num b) h = ground arith
lt→not-le_lem _ _ h = ground arith

sub_self_lem : (a x : Fixed) → flt (num (pos 0)) x ≡ true → fle x (minus a a) ≡ false
unfolding ◌-ℤ◌
sub_self_lem (num a) (num x) h = ground arith
sub_self_lem _ _ h = ground arith

lt_numbers_lem : (a b : Fixed) → flt a b ≡ true → (feq a a ≡ true) × (feq b b ≡ true)
lt_numbers_lem (num a) (num b) h = ground arith
lt_numbers_lem _ _ h = ground arith

eq→le_lem : (a b : Fixed) → feq a b ≡ true → fle a b ≡ true
eq→le_lem (num a) (num b) h = ground arith
eq→le_lem _ _ h = ground arith

le_refl_lem : (a : Fixed) → feq a a ≡ true → fle a a ≡ true
le_refl_lem (num a) h = ground arith
le_refl_lem _ h = ground arith

le_of_not-lt_lem :
    (a b : Fixed) → feq a a ≡ true → feq b b ≡ true → flt a b ≡ false → fle b a ≡ true
le_of_not-lt_lem (num a) (num b) p q h = ground arith
le_of_not-lt_lem _ _ p q h = ground arith

lt_of_not-le_lem :
    (a b : Fixed) → feq a a ≡ true → feq b b ≡ true → fle a b ≡ false → flt b a ≡ true
lt_of_not-le_lem (num a) (num b) p q h = ground arith
lt_of_not-le_lem _ _ p q h = ground arith

pub fixed-IsOrdered : IsOrdered Fixed
fixed-IsOrdered = record {
  lt_irrefl = lt_irrefl_lem;
  lt_asymm = lt_asymm_lem;
  lt_trans = lt_trans_lem;
  le_trans = le_trans_lem;
  le-lt_trans = le-lt_trans_lem;
  lt-le_trans = lt-le_trans_lem;
  lt→le = lt→le_lem;
  lt→not-le = lt→not-le_lem;
  sub_self = sub_self_lem;
  lt_numbers = lt_numbers_lem;
  eq→le = eq→le_lem;
  le_refl = le_refl_lem;
  le_of_not-lt = le_of_not-lt_lem;
  lt_of_not-le = lt_of_not-le_lem;
}

sub_zero_lem : (a : Fixed) → minus a (num (pos 0)) ≡ a
unfolding ◌-ℤ◌
sub_zero_lem (num a) = ground arith
sub_zero_lem infinity = refl
sub_zero_lem nan = refl

mul_one_lem : (a : Fixed) → map₂ (λ x y. num (div_ℕ (x *ℤ y) scale)) a (num (pos scale)) ≡ a
unfolding ◌*ℤ◌ div_ℕ
mul_one_lem (num (pos n)) = ground arith
mul_one_lem (num (negsuc n)) = ground arith
mul_one_lem infinity = refl
mul_one_lem nan = refl

pub fixed-HasUnits : HasUnits Fixed
fixed-HasUnits = record { sub_zero = sub_zero_lem; mul_one = mul_one_lem; not_unit = refl }

less_than_unit_lem :
    (s : Fixed)
    → fle (num (pos 0)) s ≡ true
    → flt s (num (pos scale)) ≡ true
    → (flt (num (pos 0)) (minus (num (pos scale)) s) ≡ true)
      × (fle (minus (num (pos scale)) s) (num (pos scale)) ≡ true)
unfolding ◌-ℤ◌
less_than_unit_lem (num a) h k = (ground arith, ground arith)
less_than_unit_lem infinity h k = cc
less_than_unit_lem nan h k = cc

more_than_unit_lem :
    (s : Fixed)
    → fle (num (pos 0)) s ≡ true
    → fle (num (pos scale)) (map₂ (λ a b. num (a +ℤ b)) (num (pos scale)) s) ≡ true
unfolding ◌+ℤ◌
more_than_unit_lem (num a) h = ground arith
more_than_unit_lem infinity h = refl
more_than_unit_lem nan h = cc

abbrev times : Fixed → Fixed → Fixed
times = map₂ (λ a b. num (div_ℕ (a *ℤ b) scale))

pos_times : (n m : ℕ) → div_ℕ (pos n *ℤ pos m) scale ≡ pos (n * m / scale)
unfolding ◌*ℤ◌ div_ℕ
pos_times n m = ground arith

mul_le_lem :
    (a f : Fixed)
    → flt (num (pos 0)) a ≡ true
    → flt (num (pos 0)) f ≡ true
    → fle f (num (pos scale)) ≡ true
    → fle (times a f) a ≡ true
unfolding ◌*ℤ◌ div_ℕ
mul_le_lem (num (pos n)) (num (pos m)) p q h =
    let small : m ≤ scale = ground arith in
    rw (pos_times n m) (ground (arith, mul-le-mul_left n small))
mul_le_lem (num (negsuc n)) f p q h = ground arith
mul_le_lem (num (pos n)) (num (negsuc m)) p q h = ground arith
mul_le_lem infinity (num b) p q h = refl
mul_le_lem a infinity p q h = cc
mul_le_lem a nan p q h = cc
mul_le_lem nan (num b) p q h = cc

le_mul_lem :
    (a f : Fixed)
    → flt (num (pos 0)) a ≡ true
    → fle (num (pos scale)) f ≡ true
    → fle a (times a f) ≡ true
unfolding ◌*ℤ◌ div_ℕ
le_mul_lem (num (pos n)) (num (pos m)) p h =
    let large : scale ≤ m = ground arith in
    rw (pos_times n m) (ground (arith, mul-le-mul_left n large))
le_mul_lem (num (negsuc n)) f p h = ground arith
le_mul_lem (num (pos n)) (num (negsuc m)) p h = ground arith
le_mul_lem infinity (num b) p h = refl
le_mul_lem (num (pos n)) infinity p h = refl
le_mul_lem infinity infinity p h = refl
le_mul_lem a nan p h = ground arith
le_mul_lem nan (num b) p h = cc
le_mul_lem nan infinity p h = cc

pub fixed-IsScaling : IsScaling Fixed
fixed-IsScaling = record {
  less_than_unit = less_than_unit_lem;
  more_than_unit = more_than_unit_lem;
  mul_le = mul_le_lem;
  le_mul = le_mul_lem;
}
