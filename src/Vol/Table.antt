-- ===== src/Vol/Table.antt =====
-- `fallback_for`, `build_table` and `distances` of deepfield/vol.py. The log lines, the exceptions of
-- the candle store and the JSON of the stored table are not modelled: the store gives a list of
-- candles, empty where the read fails, and the stored table is a dictionary.
use oracle_deepfield.Base.{Bool, not, ◌&&◌, Option, none, some, List, [], ◌∷◌, if◌then◌else◌}
use oracle_deepfield.Base.Names.{Name, name_lookup}
use oracle_deepfield.Num.{Float, nought}
use oracle_deepfield.Vol.Ruling.{Day, Distances, LiqConfig, tp_mult, atr_pct, sane_atr, resolve}

-- Where the distances of a row come from.
pub data Source : Type 0 where
  measured fallback legacy : Source

pub record Row (F : Type 0) : Type 0 where
  pub dist : Distances F
  pub open dist use *
  pub source : Source
  pub leverage : Option F

-- What the table is built from: the gates' configuration, FALLBACK_TP_PCT, PER_PAIR_LEVERAGE, and
-- the closed daily candles of the store.
pub record Inputs (F : Type 0) : Type 0 where
  pub cfg : LiqConfig F
  pub fallback_tp : List (Name × F)
  pub per_pair_leverage : List (Name × F)
  pub candles : Name → List (Day F)

module _ {F : Type 0} ⦃fl : Float F⦄ where
  open fl use {div, eq, dec}

  abbrev pub legacy_tp_pct : F
  legacy_tp_pct = dec 40 1

  abbrev pub legacy_sl_pct : F
  legacy_sl_pct = dec 99 1

  abbrev pub legacy_rung_pct : F
  legacy_rung_pct = dec 10 1

  -- FALLBACK_TP_PCT.get(symbol, DEFAULT_FALLBACK_TP_PCT)
  abbrev pub fallback_tp_of : Inputs F → Name → F
  fallback_tp_of i symbol = elim (name_lookup symbol i.fallback_tp) [
    | none ↦ dec 40 1
    | some tp ↦ tp
  ]

  -- `fallback_for`
  unfoldable pub fallback_for : Inputs F → Name → Option F → Row F
  unfolding resolve
  fallback_for i symbol leverage = record {
    dist = record (resolve i.cfg (div (fallback_tp_of i symbol) tp_mult) leverage) {
      atr_pct = none;
    };
    source = fallback;
    leverage = leverage;
  }

  abbrev pub measured_row : Inputs F → F → Option F → Row F
  measured_row i atr leverage = record {
    dist = resolve i.cfg atr leverage;
    source = measured;
    leverage = leverage;
  }

  -- Gate F: an ATR that is no measurement sends the pair to the fallback.
  unfoldable pub choose_row : Inputs F → Name → Option F → Option F → Row F
  unfolding fallback_for sane_atr
  choose_row i symbol leverage none = fallback_for i symbol leverage
  choose_row i symbol leverage (some atr) =
      if sane_atr (some atr) then measured_row i atr leverage else fallback_for i symbol leverage

  -- Gate D: a row that does not ship keeps the old settings.
  unfoldable pub gate_d : Row F → Row F
  gate_d r = if r.ships then r else record r {
    dist = record (r.dist) {
      tp_pct = legacy_tp_pct;
      sl_pct = legacy_sl_pct;
      rung_pct = legacy_rung_pct;
    };
    source = legacy;
  }

  -- The row of one pair.
  unfoldable pub build_row : Inputs F → Name → Row F
  unfolding choose_row gate_d atr_pct
  build_row i symbol =
      gate_d
        (choose_row i symbol (name_lookup symbol i.per_pair_leverage) (atr_pct (i.candles symbol)))

  -- `build_table`
  unfoldable pub build_table : Inputs F → List Name → List (Name × Row F)
  unfolding build_row
  build_table i [] = []
  build_table i (sym ∷ pairs) = (sym, build_row i sym) ∷ build_table i pairs

  -- A stored row with its three distances.
  abbrev pub is_complete : Row F → Bool
  is_complete r = not (eq r.tp_pct nought) && not (eq r.sl_pct nought) && not (eq r.rung_pct nought)

  -- `distances`
  unfoldable pub distances : Inputs F → List (Name × Row F) → Name → Row F
  unfolding build_row
  distances i table symbol = elim (name_lookup symbol table) [
    | none ↦ build_row i symbol
    | some r ↦ if is_complete r then r else build_row i symbol
  ]
