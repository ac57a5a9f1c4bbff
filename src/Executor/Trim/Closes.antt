-- ===== src/Executor/Trim/Closes.antt =====
-- What the governor sends: sells of volume that the venue says is there.
use oracle_deepfield.Base.{
  ℕ, zero, suc, ◌+◌, ◌≤◌, Bool, true, false, not, ◌≡◌, ◌⊎◌, inl, inr, refl, ◌∙◌, Option, none, some,
  List, [], ◌∷◌, ◌++◌, arith, if◌then◌else◌, if_keeps, if_splits, ◌||◌,
}
use oracle_deepfield.Num.{Float, nought, fmin}
use oracle_deepfield.Num.Laws.{IsOrdered}
use oracle_deepfield.Defense.Buffers.{should_trim}
use mathlib.Core.List.{Memᴰ}
use mathlib.Core.List.Memᴰ.{head, tail}
use oracle_deepfield.Executor.Ledger.{Mode, Row}
use oracle_deepfield.Executor.Rails.{armed}
use oracle_deepfield.Executor.Sizing.{PairInfo, round_down}
use oracle_deepfield.Executor.Venue.{Request, sells}
use oracle_deepfield.Executor.Trim.Account.{net_long}
use oracle_deepfield.Executor.Trim.Lots.{
  Resting, Broker, Governor, Desk, close_lot, close_known, close_backed, close_volume,
  close_request, volume_text, is_lot, better, ranks_above, pick_trim_lot,
}
use oracle_deepfield.Executor.Trim.{
  shed, shed_lot, reverse_gear, cancel_resting_bids, recovered, buffer_now,
}

module _ {F : Type 0} ⦃fl : Float F⦄ where
  open fl use {lt, le, round}

  -- A volume down to the grid of the pair, or to eight places where there is none.
  abbrev pub grid_floor : PairInfo F → F → F
  grid_floor info x = elim (info.lot_decimals) [ none ↦ round x 8 | some d ↦ round_down x d ]

  -- One of the open lots of the table, or none.
  abbrev pub IsPick : Mode → List (Row F) → Option (Row F) → Type 0
  IsPick m rows none = Unit
  IsPick m rows (some lot) = Memᴰ lot rows × (is_lot m lot ≡ true)

  -- A sell on the pair of a lot that the table holds open, of the grid's floor of a volume that is
  -- over neither that lot nor the live net long.
  pub data IsBacked (g : Governor F) (k : Broker F) (d : Desk F) (q : Request F) : Type 0 where
    backed :
        (lot : Row F) (net x : F)
        → IsPick g.mode d.orders (some lot)
        → net_long g.keys (g.rest_of lot.symbol) (k.positions d.sent) ≡ some net
        → lt net x ≡ false
        → lt lot.volume x ≡ false
        → q.side ≡ sells
        → q.pair ≡ lot.margin_pair
        → q.volume ≡ grid_floor (g.pair_info lot.symbol) x
        → IsBacked g k d q

  -- Whatever is sent from one desk to another is backed where it is sent.
  pub data Sells (g : Governor F) (k : Broker F) (d : Desk F) : ℕ → Desk F → Type 0 where
    nothing : (end : Desk F) → end.sent ≡ d.sent → Sells g k d 0 end
    more :
        {n : ℕ} {mid : Desk F} (end : Desk F) (q : Request F)
        → Sells g k d n mid
        → IsBacked g k mid q
        → end.sent ≡ mid.sent ++ q ∷ []
        → Sells g k d (suc n) end

  least_not_over : IsOrdered F → (a b : F) → (lt b (fmin a b) ≡ false) × (lt a (fmin a b) ≡ false)
  least_not_over o a b = (
    if_splits {A = F} (λ x. lt b x ≡ false) (lt b a) b a (λ _. o.lt_irrefl b) (λ h. h),
    if_splits {A = F} (λ x. lt a x ≡ false) (lt b a) b a (o.lt_asymm b a) (λ _. o.lt_irrefl a),
  )

  grid_lem :
      (info : PairInfo F) (volume net : F)
      → volume_text info (close_volume info volume net) ≡ grid_floor info (fmin volume net)
  unfolding close_volume
  grid_lem info volume net = ground arith

  -- One close: nothing is sent, or one order that is backed.
  abbrev IsClose : Governor F → Broker F → Desk F → Bool × Desk F → Type 0
  IsClose g k d v =
      (v.1.sent ≡ d.sent) ⊎ ((q : Request F) × (IsBacked g k d q × (v.1.sent ≡ d.sent ++ q ∷ [])))

  close_backed-IsClose :
      IsOrdered F
      → (g : Governor F) (k : Broker F) (lot : Row F) (net : F) (d : Desk F)
      → IsPick g.mode d.orders (some lot)
      → net_long g.keys (g.rest_of lot.symbol) (k.positions d.sent) ≡ some net
      → IsClose g k d (close_backed g k lot net d)
  unfolding close_backed close_request
  close_backed-IsClose o g k lot net d i e =
      let least = least_not_over o lot.volume net in
      if_keeps (IsClose g k d) (le (close_volume (g.pair_info lot.symbol) lot.volume net) nought) _
        _ (inl refl)
        (inr (
          close_request g lot (close_volume (g.pair_info lot.symbol) lot.volume net),
          (
            backed lot net (fmin lot.volume net) i e least.0 least.1 refl refl
                (grid_lem (g.pair_info lot.symbol) lot.volume net),
            refl,
          ),
        ))

  close_known-IsClose :
      IsOrdered F
      → (g : Governor F) (k : Broker F) (lot : Row F) (net : Option F) (d : Desk F)
      → IsPick g.mode d.orders (some lot)
      → net_long g.keys (g.rest_of lot.symbol) (k.positions d.sent) ≡ net
      → IsClose g k d (close_known g k lot net d)
  unfolding close_known
  close_known-IsClose o g k lot none d i e = inl refl
  close_known-IsClose o g k lot (some net) d i e = close_backed-IsClose o g k lot net d i e

  close_lot-IsClose :
      IsOrdered F
      → (g : Governor F) (k : Broker F) (lot : Row F) (d : Desk F)
      → IsPick g.mode d.orders (some lot)
      → IsClose g k d (close_lot g k lot d)
  unfolding close_lot
  close_lot-IsClose o g k lot d i =
      if_keeps (IsClose g k d) (le lot.volume nought) _ _ (inl refl)
        (close_known-IsClose o g k lot _ d i refl)

  -- What the governor picks is a lot of the table.
  pick_trim_lot-IsPick : (m : Mode) (rows : List (Row F)) → IsPick m rows (pick_trim_lot m rows)
  unfolding pick_trim_lot
  pick_trim_lot-IsPick m [] = tt
  pick_trim_lot-IsPick m (r ∷ rows) =
      if_splits (IsPick m (r ∷ rows)) (is_lot m r) _ _
        (λ e. better-IsPick m r rows (pick_trim_lot m rows) e (pick_trim_lot-IsPick m rows))
        (λ _. IsPick-later m r rows (pick_trim_lot m rows) (pick_trim_lot-IsPick m rows))
    where
      IsPick-later :
          (m : Mode) (r : Row F) (rows : List (Row F)) (o : Option (Row F))
          → IsPick m rows o
          → IsPick m (r ∷ rows) o
      IsPick-later m r rows none h = tt
      IsPick-later m r rows (some lot) h = (tail h.0, h.1)

      better-IsPick :
          (m : Mode) (r : Row F) (rows : List (Row F)) (o : Option (Row F))
          → is_lot m r ≡ true
          → IsPick m rows o
          → IsPick m (r ∷ rows) (better r o)
      better-IsPick m r rows none e h = (head refl, e)
      better-IsPick m r rows (some best) e h =
          if_keeps (IsPick m (r ∷ rows)) (ranks_above best r) _ _ (tail h.0, h.1) (head refl, e)

  -- At most `n` more orders, all backed.
  abbrev SellsUpTo : Governor F → Broker F → Desk F → ℕ → Desk F → Type 0
  SellsUpTo g k d n end = (m : ℕ) × ((m ≤ n) × Sells g k d m end)

  closed_Sells :
      (g : Governor F) (k : Broker F) (d mid : Desk F) (n : ℕ) (v : Bool × Desk F)
      → IsClose g k mid v
      → SellsUpTo g k d n mid
      → SellsUpTo g k d (suc n) v.1
  closed_Sells g k d mid n v (inl e) (m, (h, nothing y z)) = (0, (omega arith, nothing v.1 (e ∙ z)))
  closed_Sells g k d mid n v (inl e) (m, (h, more y q s b z)) =
      (m, (omega arith, more v.1 q s b (e ∙ z)))
  closed_Sells g k d mid n v (inr (q, (b, z))) (m, (h, s)) =
      (suc m, (omega arith, more v.1 q s b z))

  weaken :
      (g : Governor F) (k : Broker F) (d end : Desk F) (a b : ℕ)
      → a ≤ b
      → SellsUpTo g k d a end
      → SellsUpTo g k d b end
  weaken g k d end a b h (m, (l, s)) = (m, (omega arith, s))

  shed_lot-Sells :
      IsOrdered F
      → (g : Governor F) (k : Broker F) (n : ℕ) (lot : Option (Row F)) (d mid : Desk F) (j : ℕ)
      → IsPick g.mode mid.orders lot
      → ((v : Desk F) → SellsUpTo g k d (suc j) v → SellsUpTo g k d (suc j + n) (shed g k n v).1)
      → SellsUpTo g k d j mid
      → SellsUpTo g k d (j + suc n) (shed_lot g k (shed g k n) lot mid).1
  unfolding shed_lot
  shed_lot-Sells o g k n none d mid j i rest h = weaken g k d mid j (j + suc n) (omega arith) h
  shed_lot-Sells o g k n (some lot) d mid j i rest h =
      let v = close_lot g k lot mid in
      let one = closed_Sells g k d mid j v (close_lot-IsClose o g k lot mid i) h in
      if_keeps {A = ℕ × Desk F} (λ w. SellsUpTo g k d (j + suc n) w.1) v.0 _ _
        (weaken g k d (shed g k n v.1).1 (suc j + n) (j + suc n) (omega arith) (rest v.1 one))
        (weaken g k d v.1 (suc j) (j + suc n) (omega arith) one)

  shed-Sells :
      IsOrdered F
      → (g : Governor F) (k : Broker F) (n : ℕ) (d mid : Desk F) (j : ℕ) → SellsUpTo g k d j mid
      → SellsUpTo g k d (j + n) (shed g k n mid).1
  unfolding shed
  shed-Sells o g k zero d mid j h = weaken g k d mid j (j + 0) (omega arith) h
  shed-Sells o g k (suc n) d mid j h =
      if_keeps {A = ℕ × Desk F} (λ w. SellsUpTo g k d (j + suc n) w.1)
        (recovered g (buffer_now g k mid)) _ _ (weaken g k d mid j (j + suc n) (omega arith) h)
        (shed_lot-Sells o g k n _ d mid j (pick_trim_lot-IsPick g.mode mid.orders)
          (λ v. shed-Sells o g k n d v (suc j)) h)

  -- Canceling bids sends no order.
  cancel_resting_bids_quiet :
      (g : Governor F) (os : Option (List Resting)) (d : Desk F)
      → (cancel_resting_bids g os d).1.sent ≡ d.sent
  unfolding cancel_resting_bids
  cancel_resting_bids_quiet g none d = refl
  cancel_resting_bids_quiet g (some os) d = ground arith

  -- A pass of the governor sends at most as many orders as its lot cap, and each of them is a sell
  -- on the pair of a lot that the orders table holds open at that moment, of a volume that exceeds
  -- neither that lot nor the net long that the venue showed right before it, put on the volume grid
  -- of the pair (rounded down to its decimals, or to eight places where it has none).
  pub reverse_gear-Sells :
      IsOrdered F
      → (g : Governor F) (k : Broker F) (d : Desk F)
      → (m : ℕ) × ((m ≤ g.max_lots) × Sells g k d m (reverse_gear g k d).1)
  unfolding reverse_gear
  reverse_gear-Sells o g k d =
      let P : ℕ × Desk F → Type 0 = λ w. SellsUpTo g k d g.max_lots w.1 in
      let idle : P (0, d) = (0, (omega arith, nothing d refl)) in
      let start = if g.cancel_bids then (cancel_resting_bids g k.open_orders d).1 else d in
      let still =
        if_keeps {A = Desk F} (Sells g k d 0) g.cancel_bids _ _
          (nothing (cancel_resting_bids g k.open_orders d).1
            (cancel_resting_bids_quiet g k.open_orders d))
          (nothing d refl) in
      if_keeps P (not (armed g.mode g.sim_attached) || not g.enabled) _ _ idle (
        if_keeps P (not (should_trim (buffer_now g k d) g.trigger_pct)) _ _ idle (
          weaken g k d (shed g k g.max_lots start).1 (0 + g.max_lots) g.max_lots (omega arith)
            (shed-Sells o g k g.max_lots d start 0 (0, (omega arith, still)))))
