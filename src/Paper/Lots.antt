-- ===== src/Paper/Lots.antt =====
-- The long side of deepfield/paper_broker.py: which lots a close retires, and that a fill which is no
-- buy adds none.
use oracle_deepfield.Base.{
  ℕ, ◌≤◌, ◌≡◌, refl, Bool, false, not, ◌&&◌, some, List, [], ◌∷◌, arith, ◌⊎◌, if_keeps, length,
  keep, leb,
}
use mathlib.Core.List.{Perm}
use mathlib.Core.List.Perm
use oracle_deepfield.Num.{Float, nought}
use oracle_deepfield.Paper.Types.{Reason, Order, Position, Exchange, Env}
use oracle_deepfield.Paper.Book.{
  open_vol, takes, advance, advance_all, close_longs, executable, find_order, fill, reduce_long,
  drop_order, is_sell, is_buy, open_lots, credit, fill_volume,
}

module _ {F : Type 0} where
  -- Each lot was opened no later than the next one.
  abbrev pub IsAscending : List (Position F) → Type 0
  IsAscending [] = Unit {0}
  IsAscending (p ∷ []) = Unit {0}
  IsAscending (p ∷ q ∷ ps) = (p.opentm ≤ q.opentm) × IsAscending (q ∷ ps)

  abbrev older : Position F → Position F → Bool
  older p q = leb p.opentm q.opentm

module _ {F : Type 0} ⦃fl : Float F⦄ where
  open fl use {sub, eq, lt, le, dec}

  -- Every lot but the last one touched gives all that it has open; an amount that is not a finite
  -- number (which is one that differs from itself) is the only way out.
  abbrev pub OldestFirst : List (Position F × F) → Type 0
  OldestFirst [] = Unit {0}
  OldestFirst (x ∷ []) = Unit {0}
  OldestFirst (x ∷ y ∷ r) =
      ((x.1 ≡ open_vol x.0) ⊎ (eq (sub x.1 x.1) nought ≡ false)) × OldestFirst (y ∷ r)

  -- The lots that are touched are the first ones of the walk, in its order.
  abbrev pub StartsWith : List (Position F) → List (Position F × F) → Type 0
  StartsWith ps [] = Unit {0}
  StartsWith [] (x ∷ r) = ⊥
  StartsWith (p ∷ ps) (x ∷ r) = (x.0 ≡ p) × StartsWith ps r

  length-advance : (id : ℕ) (x : F) (ps : List (Position F)) → length (advance id x ps) ≡ length ps
  unfolding advance
  length-advance id x [] = refl
  length-advance id x (p ∷ ps) = omega (arith, length-advance id x ps)

  length-advance_all :
      (r : List (Position F × F)) (ps : List (Position F)) → length (advance_all r ps) ≡ length ps
  unfolding advance_all
  length-advance_all [] ps = refl
  length-advance_all ((p, x) ∷ r) ps =
      omega (arith, length-advance_all r (advance p.postxid x ps), length-advance p.postxid x ps)

  length-keep-le : (q : Position F → Bool) (ps : List (Position F)) → length (keep q ps) ≤ length ps
  length-keep-le q [] = omega arith
  length-keep-le q (p ∷ ps) = ground (arith, length-keep-le q ps)

  -- An order that is not a buy opens no lot when it is filled: the number of lots never grows.
  pub fill_long_only :
      (env : Env F) (t : ℕ) (price volume : F) (taker : Bool) (reason : Reason) (s : Exchange F)
      (r : Order F)
      → find_order t s.orders ≡ some r
      → is_buy r.side ≡ false
      → length (fill env t price volume taker reason s).positions ≤ length s.positions
  unfolding fill fill_volume reduce_long close_longs credit
  fill_long_only env t price volume taker reason s r found side =
      let v = executable r volume s.positions in
      let closing = takes v (open_lots r.pair s.positions) in
      rw (found, fill, side)
        (if_keeps (λ (x : Exchange F). length x.positions ≤ length s.positions)
          (is_sell r.side && le v nought) (drop_order env r s) _ (omega arith)
          (omega (
            arith,
            length-keep-le (λ p. not (le (open_vol p) (dec 1 12)))
                (advance_all closing s.positions),
            length-advance_all closing s.positions,
          )))
