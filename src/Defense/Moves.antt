-- ===== src/Defense/Moves.antt =====
-- The worst moves of deepfield/defense.py: `worst_move` is the largest fall over its horizon, and
-- no figure of the basket is ever negative.
use oracle_deepfield.Base.{
  ℕ, ◌<◌, ◌≡◌, refl, true, Option, none, some, List, [], ◌∷◌, arith, length, drop, if◌then◌else◌,
  ◌⊎◌, inl, if_keeps,
}
use oracle_deepfield.Num.{Float, nought, fmax}
use oracle_deepfield.Num.Laws.{IsOrdered}
use oracle_deepfield.Defense.Basket.{
  drawdown_from, basket_index, basket_drawdown, raised, fall, is_usable, worst_from, worst_move,
}

module _ {F : Type 0} ⦃fl : Float F⦄ where
  open fl use {sub, div, lt, le, eq}

  -- w is at least every fall between the two lists that is a number and starts from a price above 0.
  abbrev pub Dominates : F → List F → List F → Type 0
  Dominates w (a ∷ as') (b ∷ bs) =
      (is_usable a ≡ true → eq (fall a b) (fall a b) ≡ true → le (fall a b) w ≡ true)
      × Dominates w as' bs
  Dominates w _ _ = Unit {0}

  -- w is one of the falls.
  abbrev pub Occurs : F → List F → List F → Type 0
  Occurs w (a ∷ as') (b ∷ bs) = ((is_usable a ≡ true) × (w ≡ fall a b)) ⊎ Occurs w as' bs
  Occurs w _ _ = ⊥

  -- x is a number, not NaN.
  abbrev pub IsNumber : F → Type 0
  IsNumber x = eq x x ≡ true

  module _ (o : IsOrdered F) where
    fmax-IsNumber : (a b : F) → IsNumber a → IsNumber (fmax a b)
    fmax-IsNumber a b na = ground (arith, o.lt_numbers a b)

    fmax_left : (a b : F) → IsNumber a → le a (fmax a b) ≡ true
    fmax_left a b na = ground (arith, o.lt→le a b, o.le_refl a na)

    fmax_right : (a b : F) → IsNumber a → IsNumber b → le b (fmax a b) ≡ true
    fmax_right a b na nb = ground (arith, o.le_refl b nb, o.le_of_not-lt a b na nb)

    -- One round of the loop: the worst fall so far, and the next pair.
    abbrev next : F → F → F → F
    next w a b = if is_usable a then fmax w (fall a b) else w

    next-IsNumber : (w a b : F) → IsNumber w → IsNumber (next w a b)
    next-IsNumber w a b n =
        if_keeps IsNumber (is_usable a) (fmax w (fall a b)) w (fmax-IsNumber w _ n) n

    next_left : (w a b : F) → IsNumber w → le w (next w a b) ≡ true
    next_left w a b n =
        if_keeps (λ x. le w x ≡ true) (is_usable a) (fmax w (fall a b)) w (fmax_left w _ n)
          (o.le_refl w n)

    next_right :
        (w a b : F)
        → IsNumber w
        → is_usable a ≡ true
        → IsNumber (fall a b)
        → le (fall a b) (next w a b) ≡ true
    next_right w a b n u nf = rw u (fmax_right w (fall a b) n nf)

    worst_from-ge : (w : F) (xs ys : List F) → IsNumber w → le w (worst_from w xs ys) ≡ true
    unfolding worst_from
    worst_from-ge w (a ∷ xs) (b ∷ ys) n =
        o.le_trans w (next w a b) (worst_from (next w a b) xs ys) (next_left w a b n)
          (worst_from-ge (next w a b) xs ys (next-IsNumber w a b n))
    worst_from-ge w [] ys n = o.le_refl w n
    worst_from-ge w (a ∷ xs) [] n = o.le_refl w n

    Dominates-worst_from :
        (w : F) (xs ys : List F) → IsNumber w → Dominates (worst_from w xs ys) xs ys
    unfolding worst_from
    Dominates-worst_from w (a ∷ xs) (b ∷ ys) n = (
      λ u nf.
          o.le_trans (fall a b) (next w a b) (worst_from (next w a b) xs ys)
            (next_right w a b n u nf) (worst_from-ge (next w a b) xs ys (next-IsNumber w a b n)),
      Dominates-worst_from (next w a b) xs ys (next-IsNumber w a b n),
    )
    Dominates-worst_from w [] ys n = tt
    Dominates-worst_from w (a ∷ xs) [] n = tt

  Occurs-worst_from :
      (w : F) (xs ys : List F) → (worst_from w xs ys ≡ w) ⊎ Occurs (worst_from w xs ys) xs ys
  unfolding worst_from
  Occurs-worst_from w (a ∷ xs) (b ∷ ys) =
      let v : F = if is_usable a then fmax w (fall a b) else w in
      ground (arith, Occurs-worst_from v xs ys)
  Occurs-worst_from w [] ys = inl refl
  Occurs-worst_from w (a ∷ xs) [] = inl refl

  module _ (o : IsOrdered F) (zero_number : IsNumber nought) where
    -- `worst_move` over a horizon within the index is at least 0 and at least every fall over that
    -- horizon that is a number and starts from a price above 0; and it is 0 or one of those falls.
    pub worst_move_worst :
        (index : List F) (horizon : ℕ)
        → 0 < horizon
        → horizon < length index
        → (le nought (worst_move index horizon) ≡ true)
          × Dominates (worst_move index horizon) index (drop horizon index)
          × ((worst_move index horizon ≡ nought)
              ⊎ Occurs (worst_move index horizon) index (drop horizon index))
    unfolding worst_move
    worst_move_worst index horizon pos within =
        let e : worst_move index horizon ≡ worst_from nought index (drop horizon index) =
          ground arith in
        rw e (
          worst_from-ge o nought index (drop horizon index) zero_number,
          Dominates-worst_from o nought index (drop horizon index) zero_number,
          Occurs-worst_from nought index (drop horizon index),
        )

    drawdown_from-ge :
        (peak : Option F) (w : F) (xs : List F) → IsNumber w → le w (drawdown_from peak w xs) ≡ true
    unfolding drawdown_from
    drawdown_from-ge peak w [] n = o.le_refl w n
    drawdown_from-ge peak w (v ∷ xs) n =
        let p = raised peak v in
        let w' : F = if is_usable p then fmax w (fall p v) else w in
        o.le_trans w w' (drawdown_from (some p) w' xs) (next_left o w p v n)
          (drawdown_from-ge (some p) w' xs (next-IsNumber o w p v n))

    -- A drawdown is never negative, whatever the series.
    pub basket_drawdown_nonneg :
        (series : List (Option F × List (Option F))) → le nought (basket_drawdown series) ≡ true
    unfolding basket_drawdown
    basket_drawdown_nonneg series = drawdown_from-ge none nought (basket_index series) zero_number
