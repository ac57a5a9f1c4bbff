-- ===== src/Executor/Rung/Placed.antt =====
-- Where the next rung may rest, and how often.
use oracle_deepfield.Base.{
  Bool, true, false, not, ◌≡◌, ◌⊎◌, inl, inr, refl, Option, none, some, [], ◌∷◌, ◌++◌, arith,
  if_keeps, any_of, subst, ap, Option-cases,
}
use oracle_deepfield.Base.Names.{Name, name_eq}
use oracle_deepfield.Num.{Float, nought}
use oracle_deepfield.Num.Laws.{IsOrdered}
use oracle_deepfield.Executor.Ledger.{has_pending_entry, Row}
use oracle_deepfield.Executor.Rails.{rails_ok, portfolio_value}
use oracle_deepfield.Executor.Sizing.{Sizing, notional_ceiling_ok}
use oracle_deepfield.Executor.Bucket.{respend_budget_ok}
use oracle_deepfield.Executor.Gates.{at_ladder_floor}
use oracle_deepfield.Executor.Venue.{Request, Config, Reads, World, insert_order, session_of, send}
use oracle_deepfield.Executor.Rung.{
  Ladder, Chain, lid_of, rung_price, rung_paused, clamped, rung_at, funded_rung, send_rung,
  record_rung, rung_request, rung_row, place_ladder_rung, anchored,
}

module _ {F : Type 0} ⦃fl : Float F⦄ where
  open fl use {lt}

  -- A price where the next rung of a chain may rest.
  pub record IsRungPrice (cfg : Config F) (x : Ladder F) (r : Reads F) (c : Chain F) (w : World F)
      (p : F) : Type 0 where
    pub included : any_of (name_eq c.symbol) cfg.excluded_pairs ≡ false
    pub unhalted : r.halt_file ≡ false
    pub alone : has_pending_entry w.orders c.symbol r.mode ≡ false
    pub over_floor : at_ladder_floor x.stop_buffer p (some c.stop) ≡ false
    pub under_lid :
        (last : F)
        → x.live_last ≡ some last
        → lt nought last ≡ true
        → lt (lid_of cfg c.symbol last) p ≡ false

  clamped_under :
      IsOrdered F
      → (cfg : Config F) (symbol : Name) (live : Option F) (target last : F) → live ≡ some last
      → lt nought last ≡ true
      → lt (lid_of cfg symbol last) (clamped cfg symbol live target) ≡ false
  unfolding clamped
  clamped_under o cfg symbol none target last e h = absurd (ground arith)
  clamped_under o cfg symbol (some l) target last e h =
      ground (arith, o.lt_irrefl (lid_of cfg symbol l))

  -- What an answer of `rung_price` rests on.
  rung_price_split :
      (cfg : Config F) (x : Ladder F) (r : Reads F) (c : Chain F) (w : World F) (p : F)
      → rung_price cfg x r c w ≡ some p
      → (rung_paused cfg x r c w ≡ false)
        × ((at_ladder_floor x.stop_buffer p (some c.stop) ≡ false)
            × (clamped cfg c.symbol x.live_last (anchored cfg r c) ≡ p))
  unfolding rung_price
  rung_price_split cfg x r c w p h = ground arith

  rung_price-IsRungPrice :
      IsOrdered F
      → (cfg : Config F) (x : Ladder F) (r : Reads F) (c : Chain F) (w : World F) (p : F)
      → rung_price cfg x r c w ≡ some p
      → IsRungPrice cfg x r c w p
  unfolding rung_paused
  rung_price-IsRungPrice o cfg x r c w p h =
      let (free, (high, e)) = rung_price_split cfg x r c w p h in
      record {
        included = ground (arith, free);
        unhalted = ground (arith, free);
        alone = ground (arith, free);
        over_floor = high;
        under_lid = λ last l z.
            subst (λ v. lt (lid_of cfg c.symbol last) v ≡ false) e
              (clamped_under o cfg c.symbol x.live_last (anchored cfg r c) last l z);
      }

  -- Nothing, or one order at a price; then at most one row, for the chain's symbol.
  abbrev pub IsOneRung : World F → F → World F → Type 0
  IsOneRung w p v =
      ((v.sent ≡ w.sent) × (v.orders ≡ w.orders))
      ⊎ ((q : Request F) × ((v.sent ≡ w.sent ++ q ∷ []) × (q.price ≡ some p)))

  record_rung-IsOneRung :
      (cfg : Config F) (r : Reads F) (c : Chain F) (p : F) (sizing : Sizing F) (w : World F)
      (row : Row F) (o : Option Name) (d : Bool)
      → let q = rung_request r c p sizing in
        IsOneRung w p (record_rung cfg r sizing row o d (send q w))
  unfolding record_rung rung_request insert_order
  record_rung-IsOneRung cfg r c p sizing w row (some given) d =
      inr (rung_request r c p sizing, (refl, refl))
  record_rung-IsOneRung cfg r c p sizing w row none false =
      inr (rung_request r c p sizing, (refl, refl))
  record_rung-IsOneRung cfg r c p sizing w row none true =
      inr (rung_request r c p sizing, (refl, refl))

  funded_rung-IsOneRung :
      (cfg : Config F) (r : Reads F) (c : Chain F) (p : F) (sizing : Option (Sizing F))
      (w : World F)
      → IsOneRung w p (funded_rung cfg r c p sizing w)
  unfolding funded_rung send_rung
  funded_rung-IsOneRung cfg r c p none w = inl (refl, refl)
  funded_rung-IsOneRung cfg r c p (some sizing) w =
      let spent = respend_budget_ok cfg.pace sizing.notional r.checked_at w.bucket in
      if_keeps (IsOneRung w p) (not (notional_ceiling_ok cfg.sizes sizing)) _ _ (inl (refl, refl)) (
        if_keeps (IsOneRung w p) spent.0 _ _
          (record_rung-IsOneRung cfg r c p sizing (record w { bucket = spent.1 })
            (rung_row cfg r c p sizing) _ _)
          (inl (refl, refl)))

  rung_at-IsOneRung :
      (cfg : Config F) (r : Reads F) (c : Chain F) (p : F) (w : World F)
      → IsOneRung w p (rung_at cfg r c (some p) w)
  unfolding rung_at
  rung_at-IsOneRung cfg r c p w =
      let (equity, s) = portfolio_value cfg.paper_portfolio_usd r.balance (session_of r w) in
      if_keeps (IsOneRung w p) (rails_ok cfg.limits s equity).0 _ _
        (funded_rung-IsOneRung cfg r c p _ (record w { peak_equity = s.peak_equity }))
        (inl (refl, refl))

  rung_at-none :
      (cfg : Config F) (r : Reads F) (c : Chain F) (w : World F) → rung_at cfg r c none w ≡ w
  unfolding rung_at
  rung_at-none cfg r c w = refl

  -- A rung sends nothing and records nothing, or it sends one order, and then only where the pair
  -- is not excluded, there is no HALT file and no bid of the symbol rests or may rest, at a price
  -- that is over the floor of the chain's stop and not over the highest post-only price under a
  -- live one.
  pub place_ladder_rung-IsRungPrice :
      IsOrdered F
      → (cfg : Config F) (x : Ladder F) (r : Reads F) (c : Chain F) (w : World F)
      → let v = place_ladder_rung cfg x r c w in
        ((v.sent ≡ w.sent) × (v.orders ≡ w.orders))
        ⊎ ((p : F) × ((q : Request F) × ((v.sent ≡ w.sent ++ q ∷ [])
                × ((q.price ≡ some p) × IsRungPrice cfg x r c w p))))
  unfolding place_ladder_rung
  place_ladder_rung-IsRungPrice o cfg x r c w = elim (Option-cases (rung_price cfg x r c w)) [
    | inl n ↦ inl (
        rw n
          (ap (λ v. v.sent) (rung_at-none cfg r c w), ap (λ v. v.orders) (rung_at-none cfg r c w)))
    | inr (p, e) ↦ elim (rung_at-IsOneRung cfg r c p w) [
      | inl same ↦ inl (rw e same)
      | inr (q, (sent, price)) ↦
          inr (p, (q, (rw e sent, (price, rung_price-IsRungPrice o cfg x r c w p e))))
    ]
  ]
