-- ===== src/Executor/Chains.antt =====
-- `_seed_chains` and `_ensure_ladder_rungs` of deepfield/executor.py: which chains are started and
-- which are continued in one pass, in the order of service. The reads of a pass are given per
-- symbol, since each entry draws its own client order id; the retry clocks are dictionaries.
pub mod Quiet
use oracle_deepfield.Base.{
  ℕ, Bool, true, false, not, ◌&&◌, ◌||◌, Option, none, some, List, [], ◌∷◌, ◌++◌, any_of, map,
  if◌then◌else◌,
}
use oracle_deepfield.Base.Names.{Name, name_eq, name_lookup}
use oracle_deepfield.Num.{Float, nought, of_ℕ}
use oracle_deepfield.Executor.Ledger.{Mode, mode_eq, Row, is_open, has_pending_entry}
use oracle_deepfield.Executor.Rails.{armed}
use oracle_deepfield.Executor.Bucket.{respend_would_refuse}
use oracle_deepfield.Executor.Gates.{service_order, stack_margin_ok, is_growing, at_ladder_floor}
use oracle_deepfield.Executor.Venue.{Config, Reads, World, tick_round}
use oracle_deepfield.Executor.Entry.{place_entry}
use oracle_deepfield.Executor.Rung.{Ladder, Chain, place_ladder_rung, step_of, anchored}

-- One pass: RESPEND_PRIORITY, SEED_PAIRS, `time.monotonic()`, and for each symbol what an entry and
-- a rung read and the last close of the local candles.
pub record Sweep (F : Type 0) : Type 0 where
  pub mode : Mode
  pub sim_attached : Bool
  pub priority : List Name
  pub seed_pairs : List Name
  pub monotonic : F
  pub reads : Name → Reads F
  pub ladder : Name → Ladder F
  pub local_price : Name → Option F

-- The module's retry clocks besides the world.
pub record Pass (F : Type 0) : Type 0 where
  pub world : World F
  pub seed_next : List (Name × F)
  pub reladder_next : List (Name × F)

abbrev pub retry_secs : ℕ
retry_secs = 600

module _ {F : Type 0} ⦃fl : Float F⦄ where
  open fl use {add, sub, mul, div, lt, le, eq}

  -- `clock.get(sym, 0.0)`
  abbrev pub next_of : List (Name × F) → Name → F
  next_of clock symbol = elim (name_lookup symbol clock) [ none ↦ nought | some t ↦ t ]

  -- A price that is missing or 0 is none.
  abbrev pub real_price : Option F → Option F
  real_price none = none
  real_price (some p) = if eq p nought then none else some p

  unfoldable pub would_refuse : Config F → Sweep F → Name → Option F → World F → Bool
  unfolding respend_would_refuse
  would_refuse cfg s symbol price w =
      let r = s.reads symbol in
      respend_would_refuse cfg.pace (r.pair_info symbol) cfg.sizes.size_mult (real_price price)
        r.checked_at w.bucket

  abbrev pub is_held : Mode → Name → Row F → Bool
  is_held m symbol r = name_eq r.symbol symbol && is_open r.status && mode_eq r.mode m

  -- A pair that waits for its clock, has a bid or a position, or cannot be funded.
  unfoldable pub seed_skipped : Config F → Sweep F → Name → Pass F → Bool
  unfolding has_pending_entry would_refuse name_eq
  seed_skipped cfg s symbol p =
      lt s.monotonic (next_of p.seed_next symbol)
      || (has_pending_entry p.world.orders symbol s.mode
          || (any_of (is_held s.mode symbol) p.world.orders
              || would_refuse cfg s symbol (s.local_price symbol) p.world))

  -- The seed at a live price, where there is one that can still be funded.
  unfoldable pub seed_at : Config F → Sweep F → Name → Option F → World F → World F
  unfolding would_refuse place_entry
  seed_at cfg s symbol none w = w
  seed_at cfg s symbol (some live) w =
      if le live nought
      then w
      else if would_refuse cfg s symbol (some live) w
      then w
      else (place_entry cfg (s.reads symbol) symbol live none true w).1

  unfoldable pub seed_one : Config F → Sweep F → Name → Pass F → Pass F
  unfolding seed_skipped seed_at
  seed_one cfg s symbol p = if seed_skipped cfg s symbol p then p else record p {
    world = seed_at cfg s symbol (s.ladder symbol).live_last p.world;
    seed_next = (symbol, add s.monotonic (of_ℕ retry_secs)) ∷ p.seed_next;
  }

  unfoldable pub seed_each : Config F → Sweep F → List Name → Pass F → Pass F
  unfolding seed_one
  seed_each cfg s [] p = p
  seed_each cfg s (symbol ∷ symbols) p = seed_each cfg s symbols (seed_one cfg s symbol p)

  -- `_seed_chains`, with what `_stack_margin_ok` reads
  unfoldable pub seed_chains : Config F → Sweep F → Ladder F → Pass F → Pass F
  unfolding armed stack_margin_ok service_order seed_each
  seed_chains cfg s x p =
      if not (armed s.mode s.sim_attached)
      then p
      else if not (is_growing (stack_margin_ok x.stack_floor_pct x.clock x.stored x.paused_since).0)
      then p
      else seed_each cfg s (service_order s.priority s.seed_pairs) p

  -- The lowest open entry of a symbol: the first one on a tie.
  abbrev pub lower : Row F → Option (Row F) → Option (Row F)
  lower r none = some r
  lower r (some best) = if lt best.entry r.entry then some best else some r

  unfoldable pub lowest_open : Mode → Name → List (Row F) → Option (Row F)
  unfolding name_eq
  lowest_open m symbol [] = none
  lowest_open m symbol (r ∷ rows) =
      let best = lowest_open m symbol rows in if is_held m symbol r then lower r best else best

  abbrev pub chain_of : Row F → Chain F
  chain_of r = record {
    symbol = r.symbol;
    pair = r.margin_pair;
    leverage = r.leverage;
    stop = r.stop;
    filled_price = r.entry;
    score = r.score;
    required = r.required;
  }

  -- One ladder step below the entry, unrounded.
  abbrev pub rung_below : Sweep F → Name → F → F
  rung_below s symbol entry = mul entry (sub (of_ℕ 1) (step_of (s.reads symbol) symbol))

  -- A chain that is excluded, has a bid, waits for its clock, or cannot be funded.
  unfoldable pub ladder_skipped : Config F → Sweep F → Name → F → Pass F → Bool
  unfolding has_pending_entry would_refuse name_eq
  ladder_skipped cfg s symbol entry p =
      any_of (name_eq symbol) cfg.excluded_pairs
      || (has_pending_entry p.world.orders symbol s.mode
          || (lt s.monotonic (next_of p.reladder_next symbol)
              || would_refuse cfg s symbol (some (rung_below s symbol entry)) p.world))

  abbrev pub stamped : Sweep F → Name → Pass F → Pass F
  stamped s symbol p = record p {
    reladder_next = (symbol, add s.monotonic (of_ℕ retry_secs)) ∷ p.reladder_next;
  }

  -- The clock is set, and a chain at its floor is left.
  unfoldable pub reladder : Config F → Sweep F → Name → Option (Row F) → Pass F → Pass F
  unfolding ladder_skipped at_ladder_floor place_ladder_rung tick_round
  reladder cfg s symbol none p = p
  reladder cfg s symbol (some row) p =
      let r = s.reads symbol in
      let x = s.ladder symbol in
      let target = tick_round cfg.tick_decimals symbol (rung_below s symbol row.entry) in
      if ladder_skipped cfg s symbol row.entry p
      then p
      else if at_ladder_floor x.stop_buffer target (some row.stop)
      then stamped s symbol p
      else record (stamped s symbol p) { world = place_ladder_rung cfg x r (chain_of row) p.world }

  unfoldable pub reladder_each : Config F → Sweep F → List Name → List (Row F) → Pass F → Pass F
  unfolding reladder lowest_open
  reladder_each cfg s [] rows p = p
  reladder_each cfg s (symbol ∷ symbols) rows p =
      reladder_each cfg s symbols rows (reladder cfg s symbol (lowest_open s.mode symbol rows) p)

  -- Each symbol with an open row, once.
  unfoldable pub held_symbols : Mode → List (Row F) → List Name
  unfolding name_eq
  held_symbols m [] = []
  held_symbols m (r ∷ rows) =
      let rest = held_symbols m rows in
      if is_open r.status && mode_eq r.mode m && not (any_of (name_eq r.symbol) rest)
      then r.symbol ∷ rest
      else rest

  -- `_ensure_ladder_rungs`: the rows are read before the first chain is continued.
  unfoldable pub ensure_ladder_rungs : Config F → Sweep F → Bool → Pass F → Pass F
  unfolding armed service_order held_symbols reladder_each
  ensure_ladder_rungs cfg s continuous p =
      if not (armed s.mode s.sim_attached) || not continuous
      then p
      else reladder_each cfg s (service_order s.priority (held_symbols s.mode p.world.orders))
          p.world.orders p
