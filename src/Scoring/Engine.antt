-- ===== src/Scoring/Engine.antt =====
-- deepfield/engine.py: `_required`, `_sig6`, `evaluate`, `tranche` and the freshness predicates.
use oracle_deepfield.Base.{
  ℕ, ◌+◌, ◌-◌, ◌*◌, ◌/◌, ◌^◌, Bool, true, false, not, ◌&&◌, Option, none, some, List, [], ◌∷◌, ◌++◌,
  map, length, take_last, keep, count_of, if◌then◌else◌, ltb, leb,
}
use Prim.Native.Nat.{max, min}
use oracle_deepfield.Base.Names.{Name}
use oracle_deepfield.Num.{Float, nought, of_ℕ, fmax, fmin}
use oracle_deepfield.Scoring.Indicators.{calc_ema, calc_rsi, calc_macd, calc_sma}
use oracle_deepfield.Scoring.Signals.{
  Profile, State, fired, not_fired, na, Why, few_weekly, few_daily, too_early, SignalResult, mk_na,
  at_end, all_but_last, sig1_below_wema200, sig2_wrsi_turning_up, sig3_macd_crossup,
  sig4_drsi_divergence, sig5_first_up_close, sig6_vol_accumulation, sig7_near_52w_low,
}
use oracle_deepfield.Scoring.Gaps.{Gap, gap_metrics}

pub data Grade : Type 0 where
  buy watch none_yet : Grade

-- The weekly series.
pub record Weekly (F : Type 0) : Type 0 where
  pub wo : List F
  pub wh : List F
  pub wl : List F
  pub wc : List F
  pub wvol : List F

pub record ScoreCard (F : Type 0) : Type 0 where
  pub symbol : Name
  pub results : List SignalResult
  pub score : ℕ
  pub denom : ℕ
  pub required : ℕ
  pub status : Grade
  pub weekly_rsi : Option F
  pub wrsi_ref : Option F
  pub daily_rsi : Option F
  pub price : F
  pub low_52w : Option F
  pub high_52w : Option F
  pub pct_above_low : Option F
  pub gap : List (ℕ × Gap F)
  pub provisional : Bool

abbrev pub is_fired : State → Bool
is_fired fired = true
is_fired not_fired = false
is_fired na = false

abbrev pub is_na : State → Bool
is_na na = true
is_na fired = false
is_na not_fired = false

-- `_required`, with STRICT_SEVEN off and MIN_RATIO 5 / 7: `round(5 / 7 * denom)` is the nearest
-- integer, since no multiple of 5 / 7 lies halfway between two.
unfoldable pub required_of : ℕ → Profile → ℕ
required_of denom p = if p.f3 then max 2 ((10 * denom + 7) / 14) else 5

unfoldable pub score_of : List SignalResult → ℕ
score_of = count_of (λ r. is_fired r.state)

unfoldable pub denom_of : List SignalResult → ℕ
denom_of = count_of (λ r. not (is_na r.state))

unfoldable pub grade_of : ℕ → ℕ → Grade
grade_of score required =
    if leb required score then buy else if leb 3 score then watch else none_yet

-- The whole-pair gate: every slot N/A.
unfoldable pub all_na : Profile → Why → List SignalResult
all_na p why = map (λ s. mk_na s p why) (1 ∷ 2 ∷ 3 ∷ 4 ∷ 5 ∷ 6 ∷ 7 ∷ [])

-- CONVICTION, by how far the score is above the requirement.
unfoldable pub conviction : ℕ → ℕ → ℕ
conviction score required = min (score - required) 2 + 1

module _ {F : Type 0} ⦃fl : Float F⦄ where
  open fl use {add, sub, mul, div, lt, le, eq, dec, ceil}

  -- `xs[-k]` if it is there and above 0.
  abbrev pub positive_at : ℕ → List F → Option F
  positive_at k xs =
      if leb k (length xs) && lt nought (at_end k xs) then some (at_end k xs) else none

  -- `min(xs)` and `max(xs)` of a list that is not empty.
  abbrev pub least : F → List F → F
  least a [] = a
  least a (x ∷ xs) = least (fmin a x) xs

  abbrev pub greatest : F → List F → F
  greatest a [] = a
  greatest a (x ∷ xs) = greatest (fmax a x) xs

  unfoldable pub least_of : List F → Option F
  least_of [] = none
  least_of (x ∷ xs) = some (least x xs)

  unfoldable pub greatest_of : List F → Option F
  greatest_of [] = none
  greatest_of (x ∷ xs) = some (greatest x xs)

  -- `_sig6`: the forming bar's volume is scaled to a whole week.
  unfoldable pub sig6 : Weekly F → List F → Profile → Bool → Option F → SignalResult
  unfolding sig6_vol_accumulation
  sig6 w sma p false elapsed = sig6_vol_accumulation w.wo w.wh w.wl w.wc w.wvol sma p
  sig6 w sma p true none = mk_na 6 p too_early
  sig6 w sma p true (some part) =
      let adj = all_but_last w.wvol ++ div (at_end 1 w.wvol) part ∷ [] in
      if lt part (dec 15 2)
      then mk_na 6 p too_early
      else sig6_vol_accumulation w.wo w.wh w.wl w.wc adj (calc_sma adj 20) p

  abbrev pub last_or_zero : List F → F
  last_or_zero dc = at_end 1 dc

  -- The lowest or highest positive close of 52 weeks.
  abbrev pub closes_52w : Weekly F → List F
  closes_52w w = keep (λ v. lt nought v) (take_last 52 w.wc)

  -- The seven results, once the whole-pair gate is passed.
  unfoldable pub seven : Weekly F → List F → Profile → Bool → Option F → List SignalResult
  unfolding sig6
  seven w dc p provisional elapsed =
      sig1_below_wema200 w.wc (calc_ema w.wc 200) p
      ∷ sig2_wrsi_turning_up (calc_rsi w.wc 14) p
      ∷ sig3_macd_crossup (calc_macd w.wc 12 26 9).2 p
      ∷ sig4_drsi_divergence dc (calc_rsi dc 14) p
      ∷ sig5_first_up_close w.wc p
      ∷ sig6 w (calc_sma w.wvol 20) p provisional elapsed
      ∷ sig7_near_52w_low (last_or_zero dc) (least_of (closes_52w w)) p
      ∷ []

  unfoldable pub results_of : Weekly F → List F → Profile → Bool → Option F → List SignalResult
  unfolding seven all_na
  results_of w dc p provisional elapsed =
      if ltb (length w.wc) 30
      then all_na p few_weekly
      else if ltb (length dc) 30
      then all_na p few_daily
      else seven w dc p provisional elapsed

  unfoldable pub above_low : F → Option F → Option F
  above_low price none = none
  above_low price (some low) =
      if not (eq low nought) && lt nought low && lt nought price
      then some (mul (div (sub price low) low) (of_ℕ 100))
      else none

  -- `evaluate`
  unfoldable pub evaluate : Name → Weekly F → List F → Profile → Bool → Option F → ScoreCard F
  unfolding results_of score_of denom_of required_of grade_of gap_metrics
  evaluate symbol w dc p provisional elapsed =
      let results = results_of w dc p provisional elapsed in
      let score = score_of results in
      let denom = denom_of results in
      let required = required_of denom p in
      let price = last_or_zero dc in
      let low = least_of (closes_52w w) in
      record {
        symbol = symbol;
        results = results;
        score = score;
        denom = denom;
        required = required;
        status = grade_of score required;
        weekly_rsi = positive_at 1 (calc_rsi w.wc 14);
        wrsi_ref = positive_at 4 (calc_rsi w.wc 14);
        daily_rsi = positive_at 1 (calc_rsi dc 14);
        price = price;
        low_52w = low;
        high_52w = greatest_of (closes_52w w);
        pct_above_low = above_low price low;
        gap =
            gap_metrics results w.wc (calc_ema w.wc 200) (calc_rsi w.wc 14)
              (calc_macd w.wc 12 26 9).2 (calc_sma w.wvol 20) w.wvol w.wo price low;
        provisional = provisional;
      }

  -- `_ceil_lot`; no lot_decimals means 8
  unfoldable pub ceil_lot : F → Option ℕ → F
  ceil_lot x none = div (ceil (mul x (of_ℕ 100_000_000))) (of_ℕ 100_000_000)
  ceil_lot x (some d) = div (ceil (mul x (of_ℕ (10 ^ d)))) (of_ℕ (10 ^ d))

  -- `tranche`: quantity and multiple, or `none` where an assertion fails.
  unfoldable pub tranche : ℕ → ℕ → F → F → Option ℕ → F → Option (F × F)
  unfolding conviction ceil_lot
  tranche score required ordermin costmin lot_decimals price =
      let base = fmax ordermin (ceil_lot (div costmin price) lot_decimals) in
      let mult = of_ℕ (conviction score required) in
      let qty = ceil_lot (mul base mult) lot_decimals in
      if le price nought
      then some (nought, nought)
      else if le ordermin qty && le (sub costmin (dec 1 9)) (mul qty price)
      then some (qty, mult)
      else none

-- `is_stale` and `should_alert`, in seconds.
unfoldable pub is_stale : ℕ → ℕ → Bool
is_stale tick_age stale_secs = ltb stale_secs tick_age

unfoldable pub should_alert : Option ℕ → ℕ → ℕ → Bool
should_alert none now hours = true
should_alert (some last) now hours = leb (last + hours * 3600) now
