-- ===== src/Base/Names.antt =====
-- Text names (pairs, symbols, transaction ids) as lists of code points, compared for equality.
use mathlib.Core.Path.{◌≡◌, refl, ap₂}
use mathlib.Core.Bool.{Bool, true, false, ◌&&◌}
use mathlib.Core.List.{List, [], ◌∷◌}
use mathlib.Core.Option.{Option, none, some}
use native.Mathlib.Omega.{arith}
use Prim.Native.Nat.{ℕ}
use Prim.Native.Char.{code}
use Prim.Native.String.{String}
use oracle_deepfield.Base.Tests.{◌==◌, ==_iff, if◌then◌else◌, &&-left, &&-right}

abbrev pub Name : Type 0
Name = List ℕ

abbrev pub codes : String → Name
codes String.[] = []
codes (String.◌∷◌ c s) = code c ∷ codes s

unfoldable pub name_eq : Name → Name → Bool
name_eq [] [] = true
name_eq [] (y ∷ ys) = false
name_eq (x ∷ xs) [] = false
name_eq (x ∷ xs) (y ∷ ys) = x == y && name_eq xs ys

pub name_eq→eq : (a b : Name) → name_eq a b ≡ true → a ≡ b
unfolding name_eq
name_eq→eq [] [] h = refl
name_eq→eq [] (y ∷ ys) h = cc
name_eq→eq (x ∷ xs) [] h = cc
name_eq→eq (x ∷ xs) (y ∷ ys) h =
    ap₂ ◌∷◌ ((==_iff x y).0 (&&-left _ _ h)) (name_eq→eq xs ys (&&-right _ _ h))

pub name_eq_refl : (a : Name) → name_eq a a ≡ true
unfolding name_eq
name_eq_refl [] = refl
name_eq_refl (x ∷ xs) = ground (arith, name_eq_refl xs)

-- A dictionary keyed by names, as an association list: `d.get(k)`.
abbrev pub name_lookup {ℓ} : {V : Type ℓ} → Name → List (Name × V) → Option V
name_lookup k [] = none
name_lookup k ((j, v) ∷ m) = if name_eq j k then some v else name_lookup k m
