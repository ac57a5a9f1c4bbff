-- ===== src/Executor/Sizing.antt =====
-- The sizing of deepfield/executor.py: `_round_down`, `_min_volume`, `compute_stop`, `_row_tp_pct`,
-- `_notional_ceiling_ok`, `_owns_level_near`, `size` and `plan`. The distances of a pair are those
-- of the volatility table, and an assertion of `tranche` that fails leaves the flat minimum.
use oracle_deepfield.Base.{
  ℕ, ◌^◌, Bool, true, false, not, ◌&&◌, Option, none, some, List, if◌then◌else◌, any_of,
}
use oracle_deepfield.Base.Names.{Name, name_eq}
use oracle_deepfield.Num.{Float, nought, of_ℕ, fmax, fmin}
use oracle_deepfield.Scoring.Engine.{tranche}
use oracle_deepfield.Executor.Ledger.{Mode, mode_eq, Row, is_open}

-- EXEC_SIZE_MODE: `min`, or any other text
pub data SizeMode : Type 0 where
  min_size risk_size : SizeMode

-- A row of the pairs table: `ordermin` and `costmin` of a NULL are 0.
pub record PairInfo (F : Type 0) : Type 0 where
  pub ordermin : F
  pub costmin : F
  pub lot_decimals : Option ℕ

-- What `size` reads of a score card.
pub record Conviction : Type 0 where
  pub score : ℕ
  pub required : ℕ

pub record SizeConfig (F : Type 0) : Type 0 where
  pub size_mode : SizeMode
  pub size_mult : F
  pub risk_pct : F
  pub margin_cap_pct : F
  pub max_order_notional_usd : F

pub record Sizing (F : Type 0) : Type 0 where
  pub volume : F
  pub notional : F
  pub margin : F
  pub risk_usd : F
  pub actual_risk : F
  pub capped : Bool
  pub floored_to_min : Bool
  pub conviction_mult : F
  pub size_mult : F

module _ {F : Type 0} ⦃fl : Float F⦄ where
  open fl use {add, sub, mul, div, abs, lt, le, eq, ceil}

  -- `math.floor(y)`, through `math.ceil`
  abbrev pub floor : F → F
  floor y = sub nought (ceil (sub nought y))

  -- `_round_down`
  unfoldable pub round_down : F → ℕ → F
  round_down x d = div (floor (mul x (of_ℕ (10 ^ d)))) (of_ℕ (10 ^ d))

  abbrev pub on_lot_grid : (F → ℕ → F) → F → Option ℕ → F
  on_lot_grid f x none = x
  on_lot_grid f x (some d) = f x d

  abbrev pub round_up : F → ℕ → F
  round_up x d = div (ceil (mul x (of_ℕ (10 ^ d)))) (of_ℕ (10 ^ d))

  -- `_min_volume`
  unfoldable pub min_volume : F → F → F → Option ℕ → F
  min_volume ordermin costmin entry lot_dec =
      on_lot_grid round_up (fmax ordermin (if lt nought entry then div costmin entry else nought))
        lot_dec

  -- `compute_stop`: the frozen distance, else the table's
  unfoldable pub compute_stop : F → F → Option F → F
  compute_stop table_pct entry none = mul entry (sub (of_ℕ 1) (div table_pct (of_ℕ 100)))
  compute_stop table_pct entry (some pct) = mul entry (sub (of_ℕ 1) (div pct (of_ℕ 100)))

  -- `_row_tp_pct`
  unfoldable pub row_tp_pct : F → Option F → F
  row_tp_pct table_pct none = table_pct
  row_tp_pct table_pct (some frozen) = if lt nought frozen then frozen else table_pct

  -- `x or 1.0`, then at least 1
  abbrev pub at_least_one : F → F
  at_least_one x = fmax (of_ℕ 1) (if eq x nought then of_ℕ 1 else x)

  -- `_notional_ceiling_ok`
  unfoldable pub notional_ceiling_ok : SizeConfig F → Sizing F → Bool
  notional_ceiling_ok cfg s =
      let base = cfg.max_order_notional_usd in
      if le base nought
      then true
      else not (lt (mul (mul base s.conviction_mult) (at_least_one s.size_mult)) s.notional)

  -- `_owns_level_near`
  unfoldable pub owns_level_near : List (Row F) → Mode → Name → F → F → Bool
  unfolding name_eq
  owns_level_near rows m symbol price pct =
      if le price nought
      then false
      else any_of
          (λ r.
            (name_eq r.symbol symbol && is_open r.status && mode_eq r.mode m)
            && (not (eq r.entry nought) && le (abs (sub r.entry price)) (mul pct price)))
          rows

  -- The conviction-weighted minimum: volume and multiple.
  unfoldable pub weighted : PairInfo F → F → F → Option Conviction → F × F
  unfolding tranche
  weighted info entry volume none = (volume, of_ℕ 1)
  weighted info entry volume (some card) =
      elim (tranche card.score card.required info.ordermin info.costmin info.lot_decimals entry) [
        | none ↦ (volume, of_ℕ 1)
        | some c ↦ if lt nought c.0 then c else (volume, of_ℕ 1)
      ]

  -- SIZE_MULT, never below the volume it scales
  unfoldable pub scaled : PairInfo F → F → F → F
  unfolding round_down
  scaled info smult volume =
      if lt (of_ℕ 1) smult && lt nought volume
      then fmax volume (on_lot_grid round_down (mul volume smult) info.lot_decimals)
      else volume

  abbrev pub min_sizing : F → F → F → F → F → F → Sizing F
  min_sizing entry stop leverage mult smult volume = record {
    volume = volume;
    notional = mul volume entry;
    margin = div (mul volume entry) leverage;
    risk_usd = nought;
    actual_risk = mul volume (fmax nought (sub entry stop));
    capped = false;
    floored_to_min = eq mult (of_ℕ 1);
    conviction_mult = mult;
    size_mult = smult;
  }

  -- `size` under EXEC_SIZE_MODE "min"
  unfoldable pub size_min :
      SizeConfig F → PairInfo F → F → F → F → Option Conviction → Option (Sizing F)
  unfolding min_volume weighted scaled
  size_min cfg info entry stop leverage card =
      let base = min_volume info.ordermin info.costmin entry info.lot_decimals in
      let (volume, mult) = weighted info entry base card in
      let smult = at_least_one cfg.size_mult in
      let filled = scaled info smult volume in
      if le filled nought then none else some (min_sizing entry stop leverage mult smult filled)

  -- The floor of the venue, and one more lot where the rounding fell under it.
  unfoldable pub floored : PairInfo F → F → F → F
  unfolding round_down
  floored info min_vol volume = elim (info.lot_decimals) [
    | none ↦ volume
    | some d ↦
        let down = round_down volume d in
        if lt down min_vol then round_down (add min_vol (div (of_ℕ 1) (of_ℕ (10 ^ d)))) d else down
  ]

  abbrev pub risk_sizing : F → F → F → F → Bool → Bool → F → Sizing F
  risk_sizing entry stop leverage risk_usd capped floored_to_min volume = record {
    volume = volume;
    notional = mul volume entry;
    margin = div (mul volume entry) leverage;
    risk_usd = risk_usd;
    actual_risk = mul volume (sub entry stop);
    capped = capped;
    floored_to_min = floored_to_min;
    conviction_mult = of_ℕ 1;
    size_mult = of_ℕ 1;
  }

  unfoldable pub size_on_risk : SizeConfig F → PairInfo F → F → F → F → F → Option (Sizing F)
  unfolding min_volume floored
  size_on_risk cfg info entry stop leverage equity =
      let risk_usd = mul cfg.risk_pct equity in
      let wanted = div risk_usd (sub entry stop) in
      let cap = div (mul (mul equity cfg.margin_cap_pct) leverage) entry in
      let volume = fmin wanted cap in
      let min_vol = min_volume info.ordermin info.costmin entry info.lot_decimals in
      let under = lt volume min_vol in
      let filled = floored info min_vol (if under then min_vol else volume) in
      if le filled nought
      then none
      else some (risk_sizing entry stop leverage risk_usd (lt cap wanted) under filled)

  -- `size` under any other EXEC_SIZE_MODE
  unfoldable pub size_risk : SizeConfig F → PairInfo F → F → F → F → Option F → Option (Sizing F)
  unfolding size_on_risk
  size_risk cfg info entry stop leverage none = none
  size_risk cfg info entry stop leverage (some equity) =
      if le (sub entry stop) nought
      then none
      else if le equity nought
      then none
      else size_on_risk cfg info entry stop leverage equity

  -- `size`
  unfoldable pub size :
      SizeConfig F → PairInfo F → F → F → F → Option F → Option Conviction → Option (Sizing F)
  unfolding size_min size_risk
  size cfg info entry stop leverage equity card =
      if le entry nought then none else elim (cfg.size_mode) [
        | min_size ↦ size_min cfg info entry stop leverage card
        | risk_size ↦ size_risk cfg info entry stop leverage equity
      ]
