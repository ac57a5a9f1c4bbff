-- ===== src/Vol/Ruling.antt =====
-- `liq_distance_pct`, `atr_pct`, `sane_atr`, `resolve` and `should_ship` of deepfield/vol.py. A
-- missing value of a candle is `none`.
use oracle_deepfield.Base.{
  ℕ, ◌+◌, ◌-◌, Bool, true, false, not, ◌&&◌, ◌||◌, Option, none, some, List, [], ◌∷◌, length, take,
  drop, if◌then◌else◌, ltb,
}
use oracle_deepfield.Num.{Float, nought, of_ℕ, fmax, fmin, fsum}

-- A closed daily candle: high, low and close.
pub record Day (F : Type 0) : Type 0 where
  pub h : Option F
  pub l : Option F
  pub c : Option F

-- The dictionary of `resolve`.
pub record Distances (F : Type 0) : Type 0 where
  pub atr_pct : Option F
  pub tp_floored : Bool
  pub tp_capped : Bool
  pub sl_raw_pct : F
  pub liq_clamped : Bool
  pub liq_pct : Option F
  pub tp_pct : F
  pub sl_pct : F
  pub rung_pct : F
  pub rr : Option F
  pub ships : Bool

-- VOL_LIQ_CLAMP and VOL_LIQ_SAFETY_FRAC of deepfield/config.py.
pub record LiqConfig (F : Type 0) : Type 0 where
  pub clamp_on : Bool
  pub safety_frac : F

-- ATR_PERIOD
abbrev pub atr_period : ℕ
atr_period = 14

module _ {F : Type 0} ⦃fl : Float F⦄ where
  open fl use {add, sub, mul, div, abs, lt, le, eq, dec}

  abbrev pub tp_floor : F
  tp_floor = dec 10 1

  abbrev pub tp_cap : F
  tp_cap = dec 150 1

  abbrev pub tp_mult : F
  tp_mult = dec 10 1

  abbrev pub sl_floor : F
  sl_floor = dec 15 1

  abbrev pub sl_cap : F
  sl_cap = dec 220 1

  abbrev pub sl_mult : F
  sl_mult = dec 15 1

  abbrev pub rung_floor : F
  rung_floor = dec 5 1

  abbrev pub rung_cap : F
  rung_cap = dec 70 1

  abbrev pub rung_mult : F
  rung_mult = dec 5 1

  abbrev pub legacy_rr : F
  legacy_rr = dec 40 2

  -- `_clamp`
  unfoldable pub clamp : F → F → F → F
  clamp v lo hi = fmax lo (fmin v hi)

  -- `liq_distance_pct`; a missing leverage counts as 0
  unfoldable pub liq_distance_pct : Option F → Option F
  liq_distance_pct none = none
  liq_distance_pct (some lev) = if lt nought lev then some (div (of_ℕ 60) lev) else none

  -- One true range: the candle and the close before it.
  abbrev pub true_range : F → F → F → F
  true_range h l pc = fmax (fmax (sub h l) (abs (sub h pc))) (abs (sub l pc))

  abbrev pub range_of : Option F → Day F → Option F
  range_of none d = none
  range_of (some pc) d = elim d.h [
    | none ↦ none
    | some h ↦ elim d.l [
      | none ↦ none
      | some l ↦ elim d.c [ none ↦ none | some c ↦ some (true_range h l pc) ]
    ]
  ]

  abbrev pub cons_range : Option F → Option (List F) → Option (List F)
  cons_range (some r) (some rs) = some (r ∷ rs)
  cons_range _ _ = none

  -- The true ranges, or `none` as soon as a value is missing.
  unfoldable pub true_ranges : Option F → List (Day F) → Option (List F)
  true_ranges pc [] = some []
  true_ranges pc (d ∷ ds) = cons_range (range_of pc d) (true_ranges d.c ds)

  unfoldable pub smooth : F → List F → F
  smooth atr [] = atr
  smooth atr (tr ∷ trs) =
      smooth (div (add (mul atr (of_ℕ (atr_period - 1))) tr) (of_ℕ atr_period)) trs

  unfoldable pub last_close : Option F → List (Day F) → Option F
  last_close c [] = c
  last_close c (d ∷ ds) = last_close d.c ds

  abbrev pub atr_over : F → Option F → Option F
  atr_over atr none = none
  atr_over atr (some last) =
      if eq last nought || le last nought then none else some (mul (div atr last) (of_ℕ 100))

  unfoldable pub atr_of_ranges : Option (List F) → Option F → Option F
  unfolding smooth
  atr_of_ranges none last = none
  atr_of_ranges (some trs) last =
      if ltb (length trs) atr_period
      then none
      else atr_over
          (smooth (div (fsum (take atr_period trs)) (of_ℕ atr_period)) (drop atr_period trs)) last

  -- `atr_pct`: at least 15 candles, oldest first.
  unfoldable pub atr_pct : List (Day F) → Option F
  unfolding true_ranges atr_of_ranges last_close
  atr_pct [] = none
  atr_pct (d ∷ ds) =
      if ltb (length (d ∷ ds)) (atr_period + 1)
      then none
      else atr_of_ranges (true_ranges d.c ds) (last_close d.c ds)

  -- `sane_atr`
  unfoldable pub sane_atr : Option F → Bool
  sane_atr none = false
  sane_atr (some a) = eq a a && lt nought a && le a (dec 500 1)

  -- `should_ship`, without the text of the veto.
  unfoldable pub should_ship : Option F → Bool
  should_ship none = false
  should_ship (some rr) = not (lt rr legacy_rr)

  -- Gate A: the stop distance, and whether it was clamped.
  unfoldable pub gate_a : LiqConfig F → Option F → F → F × Bool
  gate_a cfg none sl = (sl, false)
  gate_a cfg (some liq) sl =
      let ceiling = mul liq cfg.safety_frac in
      if cfg.clamp_on && not (eq liq nought) && lt ceiling sl
      then (fmax sl_floor ceiling, true)
      else (sl, false)

  abbrev pub reward_to_risk : F → F → Option F
  reward_to_risk tp sl = if lt nought sl then some (div tp sl) else none

  -- `resolve`
  unfoldable pub resolve : LiqConfig F → F → Option F → Distances F
  unfolding clamp gate_a liq_distance_pct should_ship
  resolve cfg atr leverage =
      let tp = clamp (mul tp_mult atr) tp_floor tp_cap in
      let sl_raw = clamp (mul sl_mult atr) sl_floor sl_cap in
      let (sl, clamped) = gate_a cfg (liq_distance_pct leverage) sl_raw in
      record {
        atr_pct = some atr;
        tp_floored = lt (mul tp_mult atr) tp_floor;
        tp_capped = lt tp_cap (mul tp_mult atr);
        sl_raw_pct = sl_raw;
        liq_clamped = clamped;
        liq_pct = liq_distance_pct leverage;
        tp_pct = tp;
        sl_pct = sl;
        rung_pct = clamp (mul rung_mult atr) rung_floor rung_cap;
        rr = reward_to_risk tp sl;
        ships = should_ship (reward_to_risk tp sl);
      }
