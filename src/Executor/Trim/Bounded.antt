-- ===== src/Executor/Trim/Bounded.antt =====
-- The loop of the governor ends its work: where the venue takes every close, a pass with as many
-- turns as there are open lots is not cut short.
use oracle_deepfield.Base.{
  ℕ, zero, suc, ◌≤◌, ◌<◌, Bool, true, false, ◌&&◌, ◌≡◌, ◌⊎◌, inl, inr, refl, ap, Option, none, some,
  List, [], ◌∷◌, ◌==◌, arith, if_keeps, if_splits, count_of, any_of, ==_refl,
}
use oracle_deepfield.Base.Names.{Name}
use oracle_deepfield.Num.{Float, nought}
use oracle_deepfield.Executor.Ledger.{Mode, Row, update_row}
use oracle_deepfield.Executor.Venue.{Request, landed}
use oracle_deepfield.Executor.Trim.Account.{LivePosition, net_long, sum_longs}
use oracle_deepfield.Executor.Trim.Lots.{
  Broker, Governor, Desk, close_lot, close_known, close_backed, pick_trim_lot, is_lot, better,
  zero_row, close_row, close_volume, close_request, after_close, ranks_above,
}
use oracle_deepfield.Executor.Trim.{shed, shed_lot, recovered, buffer_now}

module _ {F : Type 0} ⦃fl : Float F⦄ where
  open fl use {le}

  abbrev lots : Mode → List (Row F) → ℕ
  lots m rows = count_of (is_lot m) rows

  abbrev has_lot : Mode → ℕ → List (Row F) → Bool
  has_lot m i rows = any_of (λ r. r.id == i && is_lot m r) rows

  pick_trim_lot-none :
      (m : Mode) (rows : List (Row F)) → lots m rows ≡ 0 → pick_trim_lot m rows ≡ none
  unfolding pick_trim_lot
  pick_trim_lot-none m [] h = refl
  pick_trim_lot-none m (r ∷ rows) h = ground (arith, pick_trim_lot-none m rows)

  -- A lot of the table, or none.
  abbrev IsListed : Mode → List (Row F) → Option (Row F) → Type 0
  IsListed m rows none = Unit
  IsListed m rows (some lot) = has_lot m lot.id rows ≡ true

  IsListed-later :
      (m : Mode) (r : Row F) (rows : List (Row F)) (o : Option (Row F))
      → IsListed m rows o
      → IsListed m (r ∷ rows) o
  IsListed-later m r rows none h = tt
  IsListed-later m r rows (some lot) h = ground arith

  IsListed-here :
      (m : Mode) (r : Row F) (rows : List (Row F))
      → is_lot m r ≡ true
      → IsListed m (r ∷ rows) (some r)
  IsListed-here m r rows h = ground (arith, ==_refl r.id)

  better-IsListed :
      (m : Mode) (r : Row F) (rows : List (Row F)) (o : Option (Row F))
      → is_lot m r ≡ true
      → IsListed m rows o
      → IsListed m (r ∷ rows) (better r o)
  better-IsListed m r rows none e h = IsListed-here m r rows e
  better-IsListed m r rows (some best) e h =
      if_keeps (IsListed m (r ∷ rows)) (ranks_above best r) _ _
        (IsListed-later m r rows (some best) h) (IsListed-here m r rows e)

  pick_trim_lot-IsListed : (m : Mode) (rows : List (Row F)) → IsListed m rows (pick_trim_lot m rows)
  unfolding pick_trim_lot
  pick_trim_lot-IsListed m [] = tt
  pick_trim_lot-IsListed m (r ∷ rows) =
      let rest = pick_trim_lot-IsListed m rows in
      if_splits (IsListed m (r ∷ rows)) (is_lot m r) _ _
        (λ e. better-IsListed m r rows (pick_trim_lot m rows) e rest)
        (λ _. IsListed-later m r rows (pick_trim_lot m rows) rest)

  update_row_fewer :
      (m : Mode) (i : ℕ) (f : Row F → Row F) (rows : List (Row F))
      → ((r : Row F) → is_lot m (f r) ≡ false)
      → lots m (update_row i f rows) ≤ lots m rows
  unfolding update_row
  update_row_fewer m i f [] h = omega arith
  update_row_fewer m i f (r ∷ rows) h = ground (arith, update_row_fewer m i f rows h, h r)

  update_row_one_fewer :
      (m : Mode) (i : ℕ) (f : Row F → Row F) (rows : List (Row F))
      → ((r : Row F) → is_lot m (f r) ≡ false)
      → has_lot m i rows ≡ true
      → lots m (update_row i f rows) < lots m rows
  unfolding update_row
  update_row_one_fewer m i f [] h k = absurd (ground arith)
  update_row_one_fewer m i f (r ∷ rows) h k =
      ground (arith, update_row_one_fewer m i f rows h, update_row_fewer m i f rows h, h r)

  -- A venue that shows its positions and takes every order.
  pub record IsTaking (k : Broker F) : Type 0 where
    pub shows : (s : List (Request F)) → (ps : List (LivePosition F)) × (k.positions s ≡ some ps)
    pub takes :
        (s : List (Request F)) (q : Request F) → (t : Name) × (landed (k.reply s q) ≡ some t)

  -- A close that went through, with a lot fewer.
  abbrev IsShed : Mode → Desk F → Bool × Desk F → Type 0
  IsShed m d v = (v.0 ≡ true) × (lots m v.1.orders < lots m d.orders)

  after_close_shed :
      (m : Mode) (i : ℕ) (rows : List (Row F)) (o : Option Name)
      → (x : Name) × (o ≡ some x)
      → has_lot m i rows ≡ true
      → ((after_close o i rows).0 ≡ true) × (lots m (after_close o i rows).1 < lots m rows)
  after_close_shed m i rows none (x, e) h = absurd (ground arith)
  after_close_shed m i rows (some given) (x, e) h =
      (refl, update_row_one_fewer m i (close_row _) rows (λ _. refl) h)

  close_backed-IsShed :
      (g : Governor F) (k : Broker F) (lot : Row F) (net : F) (d : Desk F)
      → IsTaking k
      → has_lot g.mode lot.id d.orders ≡ true
      → IsShed g.mode d (close_backed g k lot net d)
  unfolding close_backed
  close_backed-IsShed g k lot net d t h =
      let volume = close_volume (g.pair_info lot.symbol) lot.volume net in
      if_keeps (IsShed g.mode d) (le volume nought) _ _
        (refl, update_row_one_fewer g.mode lot.id (close_row _) d.orders (λ _. refl) h)
        (after_close_shed g.mode lot.id d.orders _ (t.takes d.sent (close_request g lot volume)) h)

  close_known-IsShed :
      (g : Governor F) (k : Broker F) (lot : Row F) (net : Option F) (d : Desk F)
      → IsTaking k
      → has_lot g.mode lot.id d.orders ≡ true
      → (x : F) × (net ≡ some x)
      → IsShed g.mode d (close_known g k lot net d)
  unfolding close_known
  close_known-IsShed g k lot none d t h (x, e) = absurd (ground arith)
  close_known-IsShed g k lot (some net) d t h (x, e) = close_backed-IsShed g k lot net d t h

  close_lot-IsShed :
      (g : Governor F) (k : Broker F) (lot : Row F) (d : Desk F)
      → IsTaking k
      → has_lot g.mode lot.id d.orders ≡ true
      → IsShed g.mode d (close_lot g k lot d)
  unfolding close_lot net_long
  close_lot-IsShed g k lot d t h =
      if_keeps (IsShed g.mode d) (le lot.volume nought) _ _
        (refl, update_row_one_fewer g.mode lot.id zero_row d.orders (λ _. refl) h)
        (close_known-IsShed g k lot _ d t h (
          let (ps, e) = t.shows d.sent in
          (
            sum_longs g.keys (g.rest_of lot.symbol) nought ps,
            ap (net_long g.keys (g.rest_of lot.symbol)) e,
          )))

  -- The buffer is recovered or unknown, or there is no open lot left.
  abbrev pub IsDone : Governor F → Broker F → Desk F → Type 0
  IsDone g k d = (recovered g (buffer_now g k d) ≡ true) ⊎ (pick_trim_lot g.mode d.orders ≡ none)

  shed_lot-IsDone :
      (g : Governor F) (k : Broker F) (n : ℕ) (lot : Option (Row F)) (d : Desk F)
      → IsTaking k
      → pick_trim_lot g.mode d.orders ≡ lot
      → IsListed g.mode d.orders lot
      → ((v : Desk F) → lots g.mode v.orders < lots g.mode d.orders → IsDone g k (shed g k n v).1)
      → IsDone g k (shed_lot g k (shed g k n) lot d).1
  unfolding shed_lot
  shed_lot-IsDone g k n none d t e h rest = inr e
  shed_lot-IsDone g k n (some lot) d t e h rest =
      let one = close_lot-IsShed g k lot d t h in rw (one.0) (rest (close_lot g k lot d).1 one.1)

  -- Where the venue shows its positions and takes every order, a pass with at least as many turns
  -- as there are open lots ends with the buffer at its target or unknown, or with no lot left: the
  -- cap never cuts it short.
  pub shed-IsDone :
      (g : Governor F) (k : Broker F) (n : ℕ) (d : Desk F)
      → IsTaking k
      → lots g.mode d.orders ≤ n
      → IsDone g k (shed g k n d).1
  unfolding shed
  shed-IsDone g k zero d t h = inr (pick_trim_lot-none g.mode d.orders (omega arith))
  shed-IsDone g k (suc n) d t h =
      if_splits {A = ℕ × Desk F} (λ w. IsDone g k w.1) (recovered g (buffer_now g k d)) _ _
        (λ e. inl e)
        (λ _.
          shed_lot-IsDone g k n (pick_trim_lot g.mode d.orders) d t refl
            (pick_trim_lot-IsListed g.mode d.orders) (λ v f. shed-IsDone g k n v t (omega arith)))
