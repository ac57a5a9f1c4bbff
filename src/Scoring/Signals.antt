-- ===== src/Scoring/Signals.antt =====
-- The seven signals of deepfield/signals.py under a profile of deepfield/profiles.py. `xs[-k]` of a
-- list with fewer than k elements is 0 here; the code asks for none.
use oracle_deepfield.Base.{
  ℕ, zero, suc, ◌+◌, ◌-◌, Bool, true, false, not, ◌&&◌, ◌||◌, Option, none, some, List, [], ◌∷◌,
  length, get_or, take_last, any_of, if◌then◌else◌, ltb, leb, ◌==◌,
}
use oracle_deepfield.Base.Names.{Name, codes}
use oracle_deepfield.Num.{Float, nought, of_ℕ, fmax, fmin}
use oracle_deepfield.Scoring.Indicators.{clean}

pub record Profile : Type 0 where
  pub f1 : Bool
  pub f2 : Bool
  pub f3 : Bool
  pub f4 : Bool
  pub f9 : Bool

abbrev pub full : Profile
full = record { f1 = true; f2 = true; f3 = true; f4 = true; f9 = true }

abbrev pub compat : Profile
compat = record { f1 = false; f2 = false; f3 = false; f4 = false; f9 = false }

pub data State : Type 0 where
  fired not_fired na : State

-- The reasons of the N/A results.
pub data Why : Type 0 where
  no_reason no_low few_weekly few_daily too_early : Why
  needs_weekly needs_weekly_rsi needs_daily unseeded : ℕ → Why

pub record SignalResult : Type 0 where
  pub slot : ℕ
  pub name : Name
  pub state : State
  pub reason : Why

-- DOWN_WEEKS, MACD_LOOKBACK and MACD_MIN_BARS of deepfield/config.py.
abbrev pub down_weeks : ℕ
down_weeks = 3

abbrev pub macd_lookback : ℕ
macd_lookback = 8

abbrev pub macd_min_bars : ℕ
macd_min_bars = 41

-- NAMES and `_name`: only slot 5 has two names.
unfoldable pub name_of : ℕ → Profile → Name
name_of slot p =
    if slot == 1
    then codes "Below W-EMA200"
    else if slot == 2
    then codes "W-RSI<40 Turning Up"
    else if slot == 3
    then codes "W-MACD Hist Crossup"
    else if slot == 4
    then codes "D-RSI Divergence"
    else if slot == 5
    then (if p.f1 then codes "W-First Up Close" else codes "W-First Higher High")
    else if slot == 6
    then codes "W-Vol Accumulation"
    else codes "Near 52w Low (<20%)"

-- `_mk`, for a result that is there and for one that is N/A.
abbrev pub mk : ℕ → Profile → Bool → SignalResult
mk slot p b = record {
  slot = slot;
  name = name_of slot p;
  state = if b then fired else not_fired;
  reason = no_reason;
}

abbrev pub mk_na : ℕ → Profile → Why → SignalResult
mk_na slot p why = record { slot = slot; name = name_of slot p; state = na; reason = why }

-- Not enough data: N/A under F3, and else not fired.
abbrev pub lacking : ℕ → Profile → Why → SignalResult
lacking slot p why = if p.f3 then mk_na slot p why else mk slot p false

-- Far enough from the pivot accepted last.
unfoldable pub spaced : Option ℕ → Option ℕ → ℕ → Bool
spaced (some s) (some last) i = not (ltb (i - last) s)
spaced (some s) none i = true
spaced none last i = true

-- `abs(i - j) <= 5`
abbrev pub near : ℕ → ℕ → Bool
near i j = leb i (j + 5) && leb j (i + 5)

module _ {F : Type 0} ⦃fl : Float F⦄ where
  open fl use {add, sub, mul, div, abs, lt, le, eq, dec}

  -- `xs[-k]`
  abbrev pub at_end : ℕ → List F → F
  at_end k xs = if leb k (length xs) then get_or xs (length xs - k) nought else nought

  unfoldable pub sig1_below_wema200 : List F → List F → Profile → SignalResult
  sig1_below_wema200 wc w_ema200 p =
      if ltb (length wc) 200 || le (at_end 1 w_ema200) nought
      then lacking 1 p (needs_weekly 200)
      else mk 1 p (lt (at_end 1 wc) (at_end 1 w_ema200))

  abbrev pub is_empty : List F → Bool
  is_empty [] = true
  is_empty (x ∷ xs) = false

  unfoldable pub sig2_wrsi_turning_up : List F → Profile → SignalResult
  sig2_wrsi_turning_up w_rsi p =
      if not (not (is_empty w_rsi) && lt nought (at_end 1 w_rsi)) || ltb (length w_rsi) 5
      then lacking 2 p (needs_weekly_rsi 5)
      else if not (lt nought (at_end 4 w_rsi))
      then mk 2 p false
      else mk 2 p (lt (at_end 1 w_rsi) (of_ℕ 40) && lt (at_end 4 w_rsi) (at_end 1 w_rsi))

  -- `lookback[:-1]`
  abbrev pub all_but_last : List F → List F
  all_but_last [] = []
  all_but_last (x ∷ []) = []
  all_but_last (x ∷ y ∷ r) = x ∷ all_but_last (y ∷ r)

  -- The lookback window of sig3 had a negative bar before its last.
  unfoldable pub had_negative : List F → Bool
  had_negative w_hist =
      any_of (λ h. lt h nought)
        (all_but_last
          (if leb macd_lookback (length w_hist) then take_last macd_lookback w_hist else w_hist))

  unfoldable pub sig3_macd_crossup : List F → Profile → SignalResult
  unfolding had_negative
  sig3_macd_crossup w_hist p =
      if ltb (length w_hist) (if p.f3 then macd_min_bars else 4)
      then lacking 3 p (unseeded macd_min_bars)
      else mk 3 p (had_negative w_hist && lt nought (at_end 1 w_hist))

  -- A local minimum of three bars.
  abbrev pub is_low : F → F → F → Bool
  is_low a v b = lt v a && lt v b

  -- F2: a price, and low enough against both neighbours.
  unfoldable pub prominent : Option F → F → F → F → Bool
  prominent none a v b = true
  prominent (some d) a v b =
      not (le v nought) && not (lt (div (sub a v) v) d || lt (div (sub b v) v) d)

  -- The loop of `_pivots`, at the bar i in the middle of the first three.
  unfoldable pub pivots_from : (F → F → F → Bool) → Option ℕ → Option ℕ → ℕ → List F → List (ℕ × F)
  unfolding spaced
  pivots_from accept spacing last i (a ∷ v ∷ b ∷ r) =
      if accept a v b && spaced spacing last i
      then (i, v) ∷ pivots_from accept spacing (some i) (i + 1) (v ∷ b ∷ r)
      else pivots_from accept spacing last (i + 1) (v ∷ b ∷ r)
  pivots_from accept spacing last i _ = []

  -- `_pivots`
  abbrev pub price_accepts : Option F → F → F → F → Bool
  price_accepts depth a v b = is_low a v b && prominent depth a v b

  unfoldable pub pivots : List F → Option F → Option ℕ → List (ℕ × F)
  unfolding pivots_from prominent
  pivots vals depth spacing = pivots_from (price_accepts depth) spacing none 1 vals

  -- The RSI pivots: a local minimum above 0.
  abbrev pub rsi_accepts : F → F → F → Bool
  rsi_accepts a v b = lt nought v && is_low a v b

  unfoldable pub rsi_pivots : List F → Option ℕ → List (ℕ × F)
  unfolding pivots_from
  rsi_pivots vals spacing = pivots_from rsi_accepts spacing none 1 vals

  -- The last RSI pivot near the bar j.
  unfoldable pub nearest : ℕ → Option F → List (ℕ × F) → Option F
  nearest j found [] = found
  nearest j found ((i, r) ∷ rs) = nearest j (if near i j then some r else found) rs

  -- The last two price lows.
  unfoldable pub last_two : List (ℕ × F) → Option ((ℕ × F) × (ℕ × F))
  last_two [] = none
  last_two (x ∷ []) = none
  last_two (x ∷ y ∷ []) = some (x, y)
  last_two (x ∷ y ∷ z ∷ r) = last_two (y ∷ z ∷ r)

  unfoldable pub compare_lows : F → F → Option F → Option F → Bool
  compare_lows p1 p2 (some r1) (some r2) = lt p2 p1 && lt r1 r2
  compare_lows p1 p2 _ _ = false

  unfoldable pub diverges : Option ((ℕ × F) × (ℕ × F)) → List (ℕ × F) → Bool
  unfolding nearest compare_lows
  diverges none rsi_lows = false
  diverges (some ((i1, p1), (i2, p2))) rsi_lows =
      not (ltb (length rsi_lows) 2)
      && compare_lows p1 p2 (nearest i1 none rsi_lows) (nearest i2 none rsi_lows)

  unfoldable pub find_bullish_divergence : List F → List F → ℕ → Option F → Option ℕ → Bool
  unfolding clean pivots rsi_pivots last_two diverges
  find_bullish_divergence closes rsi_vals lookback depth spacing =
      let c = clean (take_last lookback closes) in
      let r = clean (take_last lookback rsi_vals) in
      if ltb (length c) 20
      then false
      else diverges (last_two (pivots c depth spacing)) (rsi_pivots r spacing)

  unfoldable pub sig4_drsi_divergence : List F → List F → Profile → SignalResult
  unfolding find_bullish_divergence
  sig4_drsi_divergence dc d_rsi p =
      if ltb (length dc) 21
      then lacking 4 p (needs_daily 20)
      else mk 4 p (
          if p.f2
          then find_bullish_divergence dc d_rsi 60 (some (dec 15 3)) (some 3)
          else find_bullish_divergence dc d_rsi 60 none none)

  -- `wc[-i-1] < wc[-i-2]` for i from 1 to n.
  unfoldable pub lower_closes : ℕ → List F → Bool
  lower_closes zero wc = true
  lower_closes (suc n) wc = lower_closes n wc && lt (at_end (n + 2) wc) (at_end (n + 3) wc)

  unfoldable pub sig5_first_up_close : List F → Profile → SignalResult
  unfolding lower_closes
  sig5_first_up_close wc p =
      let need = if p.f1 then down_weeks + 2 else 5 in
      if ltb (length wc) need
      then lacking 5 p (needs_weekly need)
      else mk 5 p (
          lt (at_end 2 wc) (at_end 1 wc)
          && (if p.f1
              then lower_closes down_weeks wc
              else lt (at_end 2 wc) (at_end 3 wc) || lt (at_end 3 wc) (at_end 4 wc)))

  -- A green or a hammer candle.
  unfoldable pub accumulates : F → F → F → F → Bool
  accumulates o h l c =
      let body = abs (sub c o) in
      lt o c
      || (lt (mul body (dec 15 1)) (sub (fmin o c) l) && lt (sub h (fmax o c)) (mul body (dec 5 1)))

  unfoldable pub sig6_vol_accumulation :
      List F → List F → List F → List F → List F → List F → Profile → SignalResult
  unfolding accumulates
  sig6_vol_accumulation wo wh wl wc wvol w_vol_sma p =
      if ltb (length wvol) 21
        || le (at_end 1 w_vol_sma) nought
        || (is_empty wo || is_empty wh || is_empty wl)
      then lacking 6 p (needs_weekly 21)
      else mk 6 p (
          lt (at_end 1 w_vol_sma) (at_end 1 wvol)
          && accumulates (at_end 1 wo) (at_end 1 wh) (at_end 1 wl) (at_end 1 wc))

  unfoldable pub sig7_near_52w_low : F → Option F → Profile → SignalResult
  sig7_near_52w_low price none p = lacking 7 p no_low
  sig7_near_52w_low price (some low) p =
      if not (not (eq low nought) && lt nought low && lt nought price)
      then lacking 7 p no_low
      else mk 7 p (le (div (sub price low) low) (dec 20 2))
