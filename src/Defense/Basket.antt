-- ===== src/Defense/Basket.antt =====
-- `basket_index`, `basket_drawdown` and `worst_move` of deepfield/defense.py.
use oracle_deepfield.Base.{
  ℕ, zero, suc, ◌+◌, Bool, not, ◌&&◌, ◌||◌, Option, none, some, List, [], ◌∷◌, map, length, take,
  drop, get_elem?, if◌then◌else◌, ltb, leb,
}
use Prim.Native.Nat.{min}
use oracle_deepfield.Num.{Float, nought, of_ℕ, fmax, fsum}

-- range(k, k + n)
unfoldable pub indices : ℕ → ℕ → List ℕ
indices k zero = []
indices k (suc n) = k ∷ indices (k + 1) n

-- A series with its weight, and the first usable price that it is measured against.
pub record Leg (F : Type 0) : Type 0 where
  pub weight : F
  pub prices : List (Option F)
  pub base : F

module _ {F : Type 0} ⦃fl : Float F⦄ where
  open fl use {add, sub, mul, div, lt, le, eq}

  -- `x and x > 0` on a price that may be missing
  abbrev pub usable : Option F → Option F
  usable none = none
  usable (some x) = if not (eq x nought) && lt nought x then some x else none

  -- `float(w)` and the prices of the series with a weight and more than one price
  unfoldable pub weighted_rows : List (Option F × List (Option F)) → List (F × List (Option F))
  weighted_rows [] = []
  weighted_rows ((none, p) ∷ r) = weighted_rows r
  weighted_rows ((some w, p) ∷ r) =
      if not (eq w nought) && ltb 1 (length p) then (w, p) ∷ weighted_rows r else weighted_rows r

  -- The shortest length, from a first one on.
  unfoldable pub shortest : ℕ → List (F × List (Option F)) → ℕ
  shortest n [] = n
  shortest n ((w, p) ∷ r) = shortest (min n (length p)) r

  unfoldable pub first_usable : List (Option F) → Option F
  first_usable [] = none
  first_usable (x ∷ xs) = elim (usable x) [ some v ↦ some v | none ↦ first_usable xs ]

  unfoldable pub legs : F → ℕ → List (F × List (Option F)) → List (Leg F)
  unfolding first_usable
  legs total n [] = []
  legs total n ((w, p) ∷ r) = elim (first_usable (take n p)) [
    | none ↦ legs total n r
    | some p0 ↦ (record { weight = div w total; prices = take n p; base = p0 }) ∷ legs total n r
  ]

  -- A gap holds the ratio 1.
  unfoldable pub ratio : Leg F → Option F → F
  ratio g v = elim (usable v) [ some x ↦ div x g.base | none ↦ of_ℕ 1 ]

  abbrev pub price_at : List (Option F) → ℕ → Option F
  price_at p i = elim (get_elem? p i) [ none ↦ none | some x ↦ x ]

  unfoldable pub index_at : F → List (Leg F) → ℕ → F
  unfolding ratio
  index_at acc [] i = acc
  index_at acc (g ∷ gs) i = index_at (add acc (mul g.weight (ratio g (price_at g.prices i)))) gs i

  -- The index once there are rows, with n bars.
  unfoldable pub index_of : ℕ → List (F × List (Option F)) → List F
  unfolding legs index_at indices
  index_of n rows =
      let total = fsum (map (λ r. r.0) rows) in
      if ltb n 2 || le total nought then [] else elim (legs total n rows) [
        | [] ↦ []
        | g ∷ gs ↦ map (index_at nought (g ∷ gs)) (indices 0 n)
      ]

  -- `basket_index`
  unfoldable pub basket_index : List (Option F × List (Option F)) → List F
  unfolding weighted_rows shortest index_of
  basket_index series = elim (weighted_rows series) [
    | [] ↦ []
    | (w, p) ∷ r ↦ index_of (shortest (length p) r) ((w, p) ∷ r)
  ]

  -- The loop of `basket_drawdown`: the peak so far and the worst fall from it.
  abbrev pub raised : Option F → F → F
  raised none v = v
  raised (some peak) v = if lt peak v then v else peak

  unfoldable pub drawdown_from : Option F → F → List F → F
  drawdown_from peak worst [] = worst
  drawdown_from peak worst (v ∷ vs) =
      let p = raised peak v in
      drawdown_from (some p)
        (if not (eq p nought) && lt nought p then fmax worst (div (sub p v) p) else worst) vs

  unfoldable pub basket_drawdown : List (Option F × List (Option F)) → F
  unfolding basket_index drawdown_from
  basket_drawdown series = drawdown_from none nought (basket_index series)

  -- A fall from a to b as a fraction.
  abbrev pub fall : F → F → F
  fall a b = div (sub a b) a

  -- `a and a > 0`
  abbrev pub is_usable : F → Bool
  is_usable a = not (eq a nought) && lt nought a

  -- The loop of `worst_move`, over the index and the index `horizon` bars on.
  unfoldable pub worst_from : F → List F → List F → F
  worst_from worst (a ∷ as') (b ∷ bs) =
      worst_from (if is_usable a then fmax worst (fall a b) else worst) as' bs
  worst_from worst _ _ = worst

  unfoldable pub worst_move : List F → ℕ → F
  unfolding worst_from
  worst_move index horizon =
      if ltb horizon 1 || leb (length index) horizon
      then nought
      else worst_from nought index (drop horizon index)
