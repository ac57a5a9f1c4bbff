-- ===== src/Num.antt =====
-- Python floats as an interface. The operations are those of a `float` of the source; a type with
-- them is a parameter of every module, so the definitions run on any arithmetic, the machine's
-- doubles with their infinities and NaN included.
pub mod Laws
pub mod Clamps
pub mod Fixed
use oracle_deepfield.Base.{ℕ, Bool, true, false, if◌then◌else◌, List, [], ◌∷◌}

pub record Float (F : Type 0) : Type 0 where
  pub add : F → F → F
  pub sub : F → F → F
  pub mul : F → F → F
  pub div : F → F → F
  pub abs : F → F
  -- `<`, `<=` and `==`; `a > b` is `lt b a`, `a >= b` is `le b a`
  pub lt : F → F → Bool
  pub le : F → F → Bool
  pub eq : F → F → Bool
  -- the literal m / 10^k: `dec 80 2` is 0.80
  pub dec : ℕ → ℕ → F
  pub inf : F
  pub is_inf : F → Bool
  pub is_nan : F → Bool
  -- `round(x, decimals)`
  pub round : F → ℕ → F
  -- `math.ceil(x)` as a float
  pub ceil : F → F

module _ {F : Type 0} ⦃fl : Float F⦄ where
  open fl use {add, sub, lt, dec}

  -- The literal 0.0, and an integer as a float.
  abbrev pub nought : F
  nought = dec 0 0

  abbrev pub of_ℕ : ℕ → F
  of_ℕ n = dec n 0

  -- Python's `max(a, b)` and `min(a, b)` keep the first argument on a tie.
  abbrev pub fmax : F → F → F
  fmax a b = if lt a b then b else a

  abbrev pub fmin : F → F → F
  fmin a b = if lt b a then b else a

  abbrev pub neg : F → F
  neg a = sub nought a

  -- `sum(xs)` adds from the left.
  abbrev pub sum_from : F → List F → F
  sum_from acc [] = acc
  sum_from acc (x ∷ xs) = sum_from (add acc x) xs

  abbrev pub fsum : List F → F
  fsum = sum_from nought

  abbrev pub gt : F → F → Bool
  gt a b = lt b a
