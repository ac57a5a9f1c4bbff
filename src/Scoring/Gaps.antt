-- ===== src/Scoring/Gaps.antt =====
-- `_gap_metrics` of deepfield/engine.py: the distance to each signal that could be judged and did
-- not fire, as numbers where the source writes a text.
use oracle_deepfield.Base.{
  ℕ, Bool, true, false, not, ◌&&◌, Option, none, some, List, [], ◌∷◌, ◌++◌, length, if◌then◌else◌,
  leb, ◌==◌, any_of,
}
use oracle_deepfield.Num.{Float, nought, of_ℕ}
use oracle_deepfield.Scoring.Signals.{State, fired, not_fired, na, SignalResult, at_end, is_empty}

pub data Gap (F : Type 0) : Type 0 where
  -- percent above the EMA, and above the 52-week low
  above_ema : F → Gap F
  above_year_low : F → Gap F
  -- the RSI and its excess over 40, and the RSI and its rise over three bars
  rsi_high : F → F → Gap F
  rsi_rise : F → F → Gap F
  -- the histogram, stale where it is positive
  histogram : F → Bool → Gap F
  no_divergence : Gap F
  -- how much higher the close must be; or the downtrend is not confirmed
  higher : F → Gap F
  unconfirmed : Gap F
  -- percent of the average volume, and whether the candle is green
  volume : F → Bool → Gap F

abbrev pub is_not_fired : State → Bool
is_not_fired not_fired = true
is_not_fired fired = false
is_not_fired na = false

-- `by_slot[slot].state == NOT`
unfoldable pub missed : ℕ → List SignalResult → Bool
missed slot rs = any_of (λ r. r.slot == slot && is_not_fired r.state) rs

module _ {F : Type 0} ⦃fl : Float F⦄ where
  open fl use {sub, mul, div, lt, le, eq}

  abbrev pub one_gap : ℕ → Bool → Gap F → List (ℕ × Gap F)
  one_gap slot b g = if b then (slot, g) ∷ [] else []

  unfoldable pub rsi_gap : List F → List (ℕ × Gap F)
  rsi_gap w_rsi =
      let cur = at_end 1 w_rsi in
      if le (of_ℕ 40) cur
      then (2, rsi_high cur (sub cur (of_ℕ 40))) ∷ []
      else one_gap 2 (leb 4 (length w_rsi) && lt nought (at_end 4 w_rsi))
          (rsi_rise cur (sub cur (at_end 4 w_rsi)))

  unfoldable pub close_gap : List F → Gap F
  close_gap wc =
      let need = sub (at_end 2 wc) (at_end 1 wc) in
      if lt nought need then higher need else unconfirmed

  unfoldable pub low_gap : F → Option F → List (ℕ × Gap F)
  low_gap price none = []
  low_gap price (some low) =
      one_gap 7 (not (eq low nought) && lt nought low && lt nought price)
        (above_year_low (mul (div (sub price low) low) (of_ℕ 100)))

  -- The seven entries, each for its slot.
  unfoldable pub ema_entry : List SignalResult → List F → List F → List (ℕ × Gap F)
  unfolding missed
  ema_entry rs wc ema =
      one_gap 1 (missed 1 rs && (leb 200 (length wc) && lt nought (at_end 1 ema)))
        (above_ema (mul (sub (div (at_end 1 wc) (at_end 1 ema)) (of_ℕ 1)) (of_ℕ 100)))

  unfoldable pub rsi_entry : List SignalResult → List F → List (ℕ × Gap F)
  unfolding missed rsi_gap
  rsi_entry rs rsi =
      if missed 2 rs && (not (is_empty rsi) && lt nought (at_end 1 rsi)) then rsi_gap rsi else []

  unfoldable pub histogram_entry : List SignalResult → List F → List (ℕ × Gap F)
  unfolding missed
  histogram_entry rs hist =
      one_gap 3 (missed 3 rs && not (is_empty hist))
        (histogram (at_end 1 hist) (lt nought (at_end 1 hist)))

  unfoldable pub divergence_entry : List SignalResult → List (ℕ × Gap F)
  unfolding missed
  divergence_entry rs = one_gap 4 (missed 4 rs) no_divergence

  unfoldable pub close_entry : List SignalResult → List F → List (ℕ × Gap F)
  unfolding missed close_gap
  close_entry rs wc = one_gap 5 (missed 5 rs && leb 2 (length wc)) (close_gap wc)

  unfoldable pub volume_entry :
      List SignalResult → List F → List F → List F → List F → List (ℕ × Gap F)
  unfolding missed
  volume_entry rs wvol sma wc wo =
      one_gap 6 (missed 6 rs && (leb 21 (length wvol) && lt nought (at_end 1 sma))) (
        volume (mul (div (at_end 1 wvol) (at_end 1 sma)) (of_ℕ 100))
          (not (is_empty wc) && not (is_empty wo) && lt (at_end 1 wo) (at_end 1 wc)))

  unfoldable pub low_entry : List SignalResult → F → Option F → List (ℕ × Gap F)
  unfolding missed low_gap
  low_entry rs price low = if missed 7 rs then low_gap price low else []

  -- `_gap_metrics`, the slots in order
  unfoldable pub gap_metrics :
      List SignalResult
      → List F
      → List F
      → List F
      → List F
      → List F
      → List F
      → List F
      → F
      → Option F
      → List (ℕ × Gap F)
  unfolding ema_entry rsi_entry histogram_entry divergence_entry close_entry volume_entry low_entry
  gap_metrics rs wc w_ema200 w_rsi w_hist w_vol_sma wvol wo price low =
      ema_entry rs wc w_ema200
      ++ (rsi_entry rs w_rsi
          ++ (histogram_entry rs w_hist
              ++ (divergence_entry rs
                  ++ (close_entry rs wc
                      ++ (volume_entry rs wvol w_vol_sma wc wo ++ low_entry rs price low)))))
