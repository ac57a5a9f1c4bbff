-- ===== src/Executor/Entry/Gated.antt =====
-- What `place_entry` never does: record an order past a gate.
use oracle_deepfield.Base.{
  ℕ, ◌<◌, Bool, true, false, ◌≡◌, sym, ap, subst, ◌∙◌, inl, inr, refl, Option, none, some, arith,
  any_of, Bool-cases, Option-cases, if_keeps,
}
use oracle_deepfield.Base.Names.{Name, name_eq, name_lookup}
use oracle_deepfield.Num.{Float}
use oracle_deepfield.Executor.Ledger.{committed_position_count}
use oracle_deepfield.Executor.Rails.{
  Limits, Session, armed, rails_ok, portfolio_value, update_peak, peak_of,
}
use oracle_deepfield.Executor.Sizing.{Conviction}
use oracle_deepfield.Executor.Gates.{accumulation_allowed}
use oracle_deepfield.Executor.Venue.{Config, Reads, World, is_off, session_of}
use oracle_deepfield.Executor.Entry.{place_entry, place_entry_checked, paired, railed}

module _ {F : Type 0} ⦃fl : Float F⦄ where
  open fl use {lt}

  -- What the rails let through.
  record IsOnRails (l : Limits F) (s : Session F) (equity : Option F) : Type 0 where
    unhalted : s.halt_file ≡ false
    sighted :
        l.rails_enabled ≡ true → armed s.mode s.sim_attached ≡ true → (e : F) × (equity ≡ some e)
    roomy : l.rails_enabled ≡ true → committed_position_count s.orders s.mode < l.max_open_positions

  rails_ok-IsOnRails :
      (l : Limits F) (s : Session F) (equity : Option F)
      → (rails_ok l s equity).0 ≡ true
      → IsOnRails l s equity
  unfolding rails_ok
  rails_ok-IsOnRails l s none h = record {
    unhalted = ground arith;
    sighted = λ e a. ground arith;
    roomy = λ e. ground arith;
  }
  rails_ok-IsOnRails l s (some x) h = record {
    unhalted = ground arith;
    sighted = λ e a. (x, refl);
    roomy = λ e. ground arith;
  }

  -- What holds of a symbol for which an order was recorded.
  pub record IsCleared (cfg : Config F) (r : Reads F) (w : World F) (symbol : Name) : Type 0 where
    pub running : is_off r.mode ≡ false
    pub paired : (pair : Name) × (name_lookup symbol cfg.margin_pair ≡ some pair)
    pub included : any_of (name_eq symbol) cfg.excluded_pairs ≡ false
    pub accumulating : accumulation_allowed cfg.regime_gate r.regime ≡ true
    pub unhalted : r.halt_file ≡ false
    pub sighted :
        cfg.limits.rails_enabled ≡ true
        → armed r.mode r.sim_attached ≡ true
        → (e : F) × (r.balance ≡ some e)
    pub roomy :
        cfg.limits.rails_enabled ≡ true
        → committed_position_count w.orders r.mode < cfg.limits.max_open_positions

  -- The equity that the rails judge, in the session with its peak.
  abbrev judged : Config F → Reads F → World F → Option F × Session F
  judged cfg r w = portfolio_value cfg.paper_portfolio_usd r.balance (session_of r w)

  portfolio_value_known :
      (usd : F) (balance : Option F) (s : Session F) (e : F)
      → armed s.mode s.sim_attached ≡ true
      → (portfolio_value usd balance s).0 ≡ some e
      → balance ≡ some e
  unfolding portfolio_value
  portfolio_value_known usd none s e a h = ground arith
  portfolio_value_known usd (some x) s e a h = ground arith

  -- Only the peak changes.
  portfolio_value_peak :
      (usd : F) (balance : Option F) (s : Session F)
      → (peak : Option F) × ((portfolio_value usd balance s).1 ≡ record s { peak_equity = peak })
  unfolding portfolio_value update_peak
  portfolio_value_peak usd none s = (
    s.peak_equity,
    if_keeps {A = Option F × Session F} (λ v. v.1 ≡ s) (armed s.mode s.sim_attached) _ _ refl refl,
  )
  portfolio_value_peak usd (some x) s = elim (Bool-cases (armed s.mode s.sim_attached)) [
    | inl a ↦ elim (Bool-cases (lt (peak_of s) x)) [
      | inl l ↦ (some x, rw (a, l) refl)
      | inr l ↦ (s.peak_equity, rw (a, l) refl)
    ]
    | inr a ↦ (s.peak_equity, rw a refl)
  ]

  railed_allowed :
      (cfg : Config F) (r : Reads F) (symbol pair : Name) (price : F) (card : Option Conviction)
      (respend : Bool) (w : World F) (i : ℕ)
      → (railed cfg r symbol pair price card respend w).0 ≡ some i
      → (rails_ok cfg.limits (judged cfg r w).1 (judged cfg r w).0).0 ≡ true
  unfolding railed
  railed_allowed cfg r symbol pair price card respend w i h = ground arith

  railed_clear :
      (cfg : Config F) (r : Reads F) (symbol pair : Name) (price : F) (card : Option Conviction)
      (respend : Bool) (w : World F) (i : ℕ)
      → (railed cfg r symbol pair price card respend w).0 ≡ some i
      → IsOnRails cfg.limits (session_of r w) r.balance
  railed_clear cfg r symbol pair price card respend w i h =
      let (peak, e) = portfolio_value_peak cfg.paper_portfolio_usd r.balance (session_of r w) in
      let ok =
        rails_ok-IsOnRails cfg.limits (judged cfg r w).1 (judged cfg r w).0
          (railed_allowed cfg r symbol pair price card respend w i h) in
      record {
        unhalted = ap (λ s. s.halt_file) (sym e) ∙ ok.unhalted;
        sighted = λ p a.
            let (x, q) = ok.sighted p (subst (λ s. armed s.mode s.sim_attached ≡ true) (sym e) a) in
            (x, portfolio_value_known cfg.paper_portfolio_usd r.balance (session_of r w) x a q);
        roomy = λ p.
            subst (λ s. committed_position_count s.orders s.mode < cfg.limits.max_open_positions) e
              (ok.roomy p);
      }

  -- An order is recorded, and so sent, only where the mode is not off, the symbol has a margin pair
  -- and is not excluded, the regime allows accumulation, there is no HALT file, and, with the rails
  -- enabled, an armed mode knows its equity and fewer positions and bids than the limit are
  -- committed.
  pub place_entry-IsCleared :
      (cfg : Config F) (r : Reads F) (symbol : Name) (price : F) (card : Option Conviction)
      (respend : Bool) (w : World F) (i : ℕ)
      → (place_entry cfg r symbol price card respend w).0 ≡ some i
      → IsCleared cfg r w symbol
  unfolding place_entry place_entry_checked paired
  place_entry-IsCleared cfg r symbol price card respend w i h =
      elim (Option-cases (name_lookup symbol cfg.margin_pair)) [
        | inl n ↦ absurd (ground arith)
        | inr (pair, n) ↦
            let go = railed_clear cfg r symbol pair price card respend w i (ground arith) in
            record {
              running = ground arith;
              paired = (pair, n);
              included = ground arith;
              accumulating = ground arith;
              unhalted = go.unhalted;
              sighted = go.sighted;
              roomy = go.roomy;
            }
      ]
