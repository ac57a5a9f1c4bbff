-- ===== src/Paper/Sells.antt =====
-- What the fill of a sell of deepfield/paper_broker.py executes.
use oracle_deepfield.Base.{
  ℕ, ◌≡◌, refl, Bool, true, ◌&&◌, some, List, [], ◌∷◌, arith, ◌⊎◌, if_keeps, ap, sym, subst, ◌∙◌,
  Option, none, inl, inr, ◌==◌, Bool-cases,
}
use oracle_deepfield.Paper.Lifecycle.{find_order-txid}
use oracle_deepfield.Num.{Float, nought}
use oracle_deepfield.Num.Laws.{IsOrdered}
use oracle_deepfield.Paper.Types.{
  sell, canceled, closed, no_long_volume, Reason, Order, Position, Exchange, Env,
}
use oracle_deepfield.Paper.Book.{
  long_open_vol, executable, find_order, fill, reduce_long, drop_order, is_sell, is_buy, credit,
  fill_volume, fill_found, update_order, mark_canceled, mark_closed, open_long, close_order,
}

module _ {F : Type 0} where
  find_order-update_order :
      (t : ℕ) (f : Order F → Order F) (os : List (Order F)) (r : Order F)
      → ((x : Order F) → (f x).txid ≡ x.txid)
      → find_order t os ≡ some r
      → find_order t (update_order t f os) ≡ some (f r)
  unfolding update_order
  find_order-update_order t f [] r k e = cc
  find_order-update_order t f (o ∷ os) r k e = elim (Bool-cases (o.txid == t)) [
    | inl h ↦ rw (h, ap (λ n. n == t) (k o) ∙ h) (ap mapped (rw h at e))
    | inr h ↦ rw (h, h) (find_order-update_order t f os r k (rw h at e))
  ]
    where
      mapped : Option (Order F) → Option (Order F)
      mapped none = none
      mapped (some x) = some (f x)

  -- The row with the id of r, after an update by that id.
  updated :
      (t : ℕ) (r : Order F) (os : List (Order F)) (f : Order F → Order F)
      → ((x : Order F) → (f x).txid ≡ x.txid)
      → find_order t os ≡ some r
      → find_order t (update_order r.txid f os) ≡ some (f r)
  updated t r os f k found =
      subst (λ n. find_order t (update_order n f os) ≡ some (f r))
        (sym (find_order-txid t os r found)) (find_order-update_order t f os r k found)

module _ {F : Type 0} ⦃fl : Float F⦄ where
  open fl use {sub, eq, lt, le, dec}

  -- What a fill of r leaves under its id: a canceled row with its executed volume as it was, or a
  -- closed one that executed at most `volume` and at most `held`.
  abbrev pub FilledWithin : F → F → ℕ → Order F → List (Order F) → Type 0
  FilledWithin volume held t r os =
      (after : Order F) × ((find_order t os ≡ some after)
        × (((after.status ≡ canceled) × (after.vol_exec ≡ r.vol_exec))
            ⊎ ((after.status ≡ closed)
                × ((le after.vol_exec volume ≡ true) × (le after.vol_exec held ≡ true)))))

  module _ (o : IsOrdered F) where
    -- A sell executes at most the volume asked for and at most the volume held.
    executable_within :
        (r : Order F) (volume : F) (ps : List (Position F))
        → r.side ≡ sell
        → eq volume volume ≡ true
        → eq (long_open_vol r.pair ps) (long_open_vol r.pair ps) ≡ true
        → (le (executable r volume ps) volume ≡ true)
          × (le (executable r volume ps) (long_open_vol r.pair ps) ≡ true)
    unfolding executable
    executable_within r volume ps s nv nh =
        let held = long_open_vol r.pair ps in
        ground (
          arith,
          o.lt→le held volume,
          o.le_refl volume nv,
          o.le_refl held nh,
          o.le_of_not-lt held volume nh nv,
        )

    fill_volume-FilledWithin :
        (env : Env F) (t : ℕ) (price v gross fee : F) (reason : Reason) (s : Exchange F)
        (r : Order F) (volume held : F)
        → find_order t s.orders ≡ some r
        → (le v volume ≡ true) × (le v held ≡ true)
        → FilledWithin volume held t r (fill_volume env r price v gross fee reason s).orders
    unfolding fill_volume open_long reduce_long credit
    fill_volume-FilledWithin env t price v gross fee reason s r volume held found within =
        let P : Exchange F → Type 0 = λ x. FilledWithin volume held t r x.orders in
        let done = mark_closed env v price gross fee reason in
        let filled : FilledWithin volume held t r (update_order r.txid done s.orders) =
          (done r, (updated t r s.orders done (λ x. refl) found, inr (refl, within))) in
        if_keeps P (is_sell r.side && le v nought) (drop_order env r s) _
          (
            mark_canceled env no_long_volume r,
            (
              updated t r s.orders (mark_canceled env no_long_volume) (λ x. refl) found,
              inl (refl, refl),
            ),
          )
          (if_keeps P (is_buy r.side)
            (open_long env r price v gross fee (close_order env r price v gross fee reason s))
            (reduce_long env r price v fee (close_order env r price v gross fee reason s)) filled
            filled)

    -- The fill of a resting sell closes its row at a volume that is at most the one it was given and
    -- at most what the book holds open of its pair, where both are numbers, or cancels the row and
    -- leaves its executed volume as it was.
    pub fill_within :
        (env : Env F) (t : ℕ) (price volume : F) (taker : Bool) (reason : Reason) (s : Exchange F)
        (r : Order F)
        → find_order t s.orders ≡ some r
        → r.side ≡ sell
        → eq volume volume ≡ true
        → eq (long_open_vol r.pair s.positions) (long_open_vol r.pair s.positions) ≡ true
        → FilledWithin volume
            (long_open_vol r.pair s.positions)
            t
            r
            (fill env t price volume taker reason s).orders
    unfolding fill fill_found
    fill_within env t price volume taker reason s r found side nv nh =
        rw (found, fill)
          (fill_volume-FilledWithin env t price (executable r volume s.positions) _ _ reason s r
            volume (long_open_vol r.pair s.positions) found
            (executable_within r volume s.positions side nv nh))
