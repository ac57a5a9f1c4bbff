-- ===== src/Executor/Rung.antt =====
-- `_place_ladder_rung` of deepfield/executor.py: the price of the next rung, with every gate before
-- it, and its placement. What `_stack_margin_ok` narrates is left out.
pub mod Placed
use oracle_deepfield.Base.{
  ℕ, Bool, true, false, not, ◌&&◌, ◌||◌, Option, none, some, [], ◌∷◌, any_of, if◌then◌else◌,
}
use oracle_deepfield.Base.Names.{Name, codes, name_eq}
use oracle_deepfield.Num.{Float, nought, of_ℕ}
use oracle_deepfield.Executor.Ledger.{pending, blank, Row, has_pending_entry}
use oracle_deepfield.Executor.Rails.{armed, rails_ok, portfolio_value}
use oracle_deepfield.Executor.Sizing.{
  Sizing, Conviction, size, notional_ceiling_ok, owns_level_near,
}
use oracle_deepfield.Executor.Bucket.{respend_budget_ok, debit}
use oracle_deepfield.Executor.Gates.{
  Stored, accumulation_allowed, stack_margin_ok, is_growing, at_ladder_floor,
}
use oracle_deepfield.Executor.Venue.{
  buys, Request, Config, Reads, World, landed, tick_round, vol_str, session_of, insert_order, send,
}
use oracle_deepfield.Executor.Entry.{ambiguous_note}

-- LADDER_CONTINUOUS, LADDER_STOP_BUFFER, MARGIN_LEVEL_STACK_FLOOR_PCT, the stored state of the
-- book, the clock of `time.time()`, since when growth is paused, and the live price.
pub record Ladder (F : Type 0) : Type 0 where
  pub continuous : Bool
  pub stop_buffer : F
  pub stack_floor_pct : F
  pub stored : Stored F
  pub clock : F
  pub paused_since : Option F
  pub live_last : Option F

-- The chain that a rung continues: its pair, leverage, stop, last fill and conviction.
pub record Chain (F : Type 0) : Type 0 where
  pub symbol : Name
  pub pair : Name
  pub leverage : F
  pub stop : F
  pub filled_price : F
  pub score : Option ℕ
  pub required : Option ℕ

abbrev pub conviction_of : Option ℕ → Option ℕ → Option Conviction
conviction_of (some score) (some required) = some (record { score = score; required = required })
conviction_of _ _ = none

module _ {F : Type 0} ⦃fl : Float F⦄ where
  open fl use {sub, mul, div, lt, le, dec}

  abbrev pub step_of : Reads F → Name → F
  step_of r symbol = div (r.distances symbol).rung_pct (of_ℕ 100)

  -- One ladder step below the fill.
  abbrev pub anchored : Config F → Reads F → Chain F → F
  anchored cfg r c =
      tick_round cfg.tick_decimals c.symbol (mul c.filled_price (sub (of_ℕ 1) (step_of r c.symbol)))

  -- The highest price that a post-only bid may have below a live one.
  abbrev pub lid_of : Config F → Name → F → F
  lid_of cfg symbol last =
      tick_round cfg.tick_decimals symbol (mul last (sub (of_ℕ 1) cfg.post_only_slip_pct))

  unfoldable pub clamped : Config F → Name → Option F → F → F
  clamped cfg symbol none target = target
  clamped cfg symbol (some last) target =
      if lt nought last && lt (lid_of cfg symbol last) target
      then lid_of cfg symbol last
      else target

  -- The gates before the price: each refuses the rung.
  unfoldable pub rung_paused : Config F → Ladder F → Reads F → Chain F → World F → Bool
  unfolding armed accumulation_allowed stack_margin_ok has_pending_entry name_eq
  rung_paused cfg x r c w =
      any_of (name_eq c.symbol) cfg.excluded_pairs
      || (not x.continuous
          || (not (armed r.mode r.sim_attached)
              || (r.halt_file
                  || (not (accumulation_allowed cfg.regime_gate r.regime)
                      || (not (
                            is_growing
                              (stack_margin_ok x.stack_floor_pct x.clock x.stored x.paused_since).0)
                          || (le c.filled_price nought
                              || has_pending_entry w.orders c.symbol r.mode))))))

  -- The price of the rung, or none where it is refused: at the floor before or after the clamp to
  -- the live price, or on a level that is owned.
  unfoldable pub rung_price : Config F → Ladder F → Reads F → Chain F → World F → Option F
  unfolding rung_paused at_ladder_floor clamped owns_level_near tick_round
  rung_price cfg x r c w =
      let target = clamped cfg c.symbol x.live_last (anchored cfg r c) in
      if rung_paused cfg x r c w
      then none
      else if at_ladder_floor x.stop_buffer (anchored cfg r c) (some c.stop)
      then none
      else if at_ladder_floor x.stop_buffer target (some c.stop)
      then none
      else if owns_level_near w.orders r.mode c.symbol target (mul (step_of r c.symbol) (dec 5 1))
      then none
      else some target

  unfoldable pub rung_row : Config F → Reads F → Chain F → F → Sizing F → Row F
  unfolding tick_round
  rung_row cfg r c target sizing = record {
    id = 0;
    ts = r.now;
    symbol = c.symbol;
    margin_pair = c.pair;
    mode = r.mode;
    entry = target;
    stop = tick_round cfg.tick_decimals c.symbol c.stop;
    stop_prot = none;
    volume = sizing.volume;
    leverage = c.leverage;
    notional = some sizing.notional;
    margin = sizing.margin;
    risk_usd = sizing.actual_risk;
    score = c.score;
    required = c.required;
    txid = none;
    stop_txid = none;
    close_txid = none;
    status = pending;
    error = blank;
    userref = some r.new_userref;
    tp_pct = (r.distances c.symbol).tp_pct;
    sl_pct = (r.distances c.symbol).sl_pct;
    rung_pct = (r.distances c.symbol).rung_pct;
  }

  unfoldable pub rung_request : Reads F → Chain F → F → Sizing F → Request F
  unfolding vol_str
  rung_request r c target sizing = record {
    pair = c.pair;
    side = buys;
    ordertype = codes "limit";
    volume = vol_str (r.pair_info c.symbol) sizing.volume;
    leverage = c.leverage;
    price = some target;
    post_only = true;
    validate_only = false;
    userref = some r.new_userref;
  }

  -- The row of a rung that rests or may rest; a definite refusal leaves none.
  unfoldable pub record_rung :
      Config F → Reads F → Sizing F → Row F → Option Name → Bool → World F → World F
  unfolding insert_order debit
  record_rung cfg r sizing row (some given) definite w =
      (insert_order (record row { txid = some given })
        (record w { bucket = debit cfg.pace sizing.notional r.debited_at w.bucket })).1
  record_rung cfg r sizing row none false w =
      (insert_order (record row { error = ambiguous_note }) w).1
  record_rung cfg r sizing row none true w = w

  unfoldable pub send_rung : Config F → Reads F → Chain F → F → Sizing F → World F → World F
  unfolding rung_row rung_request record_rung
  send_rung cfg r c target sizing w =
      let q = rung_request r c target sizing in
      let answer = r.reply q in
      record_rung cfg r sizing (rung_row cfg r c target sizing) (landed answer) answer.definite
        (send q w)

  -- The ceiling and the respend budget.
  unfoldable pub funded_rung :
      Config F → Reads F → Chain F → F → Option (Sizing F) → World F → World F
  unfolding notional_ceiling_ok respend_budget_ok send_rung
  funded_rung cfg r c target none w = w
  funded_rung cfg r c target (some sizing) w =
      let (ok, b) = respend_budget_ok cfg.pace sizing.notional r.checked_at w.bucket in
      if not (notional_ceiling_ok cfg.sizes sizing)
      then w
      else if ok
      then send_rung cfg r c target sizing (record w { bucket = b })
      else record w { bucket = b }

  -- The rails, and the size at the conviction of the chain.
  unfoldable pub rung_at : Config F → Reads F → Chain F → Option F → World F → World F
  unfolding portfolio_value rails_ok size funded_rung
  rung_at cfg r c none w = w
  rung_at cfg r c (some target) w =
      let (equity, s) = portfolio_value cfg.paper_portfolio_usd r.balance (session_of r w) in
      let w1 = record w { peak_equity = s.peak_equity } in
      if (rails_ok cfg.limits s equity).0
      then funded_rung cfg r c target
          (size cfg.sizes (r.pair_info c.symbol) target c.stop c.leverage equity
            (conviction_of c.score c.required))
          w1
      else w1

  -- `_place_ladder_rung`
  unfoldable pub place_ladder_rung : Config F → Ladder F → Reads F → Chain F → World F → World F
  unfolding rung_price rung_at
  place_ladder_rung cfg x r c w = rung_at cfg r c (rung_price cfg x r c w) w
