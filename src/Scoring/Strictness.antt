-- ===== src/Scoring/Strictness.antt =====
-- The profiles of deepfield/profiles.py against each other: which switches can make a signal of
-- deepfield/signals.py fire less often, and which leave it alone.
use oracle_deepfield.Base.{◌≡◌, true, false, Option, none, some, List, arith}
use oracle_deepfield.Num.{Float}
use oracle_deepfield.Scoring.Signals.{
  Profile, fired, SignalResult, sig1_below_wema200, sig2_wrsi_turning_up, sig3_macd_crossup,
  sig4_drsi_divergence, lower_closes, sig5_first_up_close, sig6_vol_accumulation, sig7_near_52w_low,
}

-- The same profile with N/A for young listings switched off.
abbrev pub without_f3 : Profile → Profile
without_f3 p = record p { f3 = false }

-- Whatever fires in the first result fires in the second.
abbrev pub FiresLess : SignalResult → SignalResult → Type 0
FiresLess a b = a.state ≡ fired → b.state ≡ fired

module _ {F : Type 0} ⦃fl : Float F⦄ where
  pub sig1-FiresLess :
      (wc ema : List F) (p : Profile)
      → FiresLess (sig1_below_wema200 wc ema p) (sig1_below_wema200 wc ema (without_f3 p))
  unfolding sig1_below_wema200
  sig1-FiresLess wc ema p h = ground arith

  pub sig2-FiresLess :
      (rsi : List F) (p : Profile)
      → FiresLess (sig2_wrsi_turning_up rsi p) (sig2_wrsi_turning_up rsi (without_f3 p))
  unfolding sig2_wrsi_turning_up
  sig2-FiresLess rsi p h = ground arith

  pub sig3-FiresLess :
      (hist : List F) (p : Profile)
      → FiresLess (sig3_macd_crossup hist p) (sig3_macd_crossup hist (without_f3 p))
  unfolding sig3_macd_crossup
  sig3-FiresLess hist p h = ground arith

  pub sig4-FiresLess :
      (dc rsi : List F) (p : Profile)
      → FiresLess (sig4_drsi_divergence dc rsi p) (sig4_drsi_divergence dc rsi (without_f3 p))
  unfolding sig4_drsi_divergence
  sig4-FiresLess dc rsi p h = ground arith

  pub sig5-FiresLess :
      (wc : List F) (p : Profile)
      → FiresLess (sig5_first_up_close wc p) (sig5_first_up_close wc (without_f3 p))
  unfolding sig5_first_up_close
  sig5-FiresLess wc p h = ground arith

  pub sig6-FiresLess :
      (wo wh wl wc wvol sma : List F) (p : Profile)
      → FiresLess
          (sig6_vol_accumulation wo wh wl wc wvol sma p)
          (sig6_vol_accumulation wo wh wl wc wvol sma (without_f3 p))
  unfolding sig6_vol_accumulation
  sig6-FiresLess wo wh wl wc wvol sma p h = ground arith

  pub sig7-FiresLess :
      (price : F) (low : Option F) (p : Profile)
      → FiresLess (sig7_near_52w_low price low p) (sig7_near_52w_low price low (without_f3 p))
  unfolding sig7_near_52w_low
  sig7-FiresLess price none p h = ground arith
  sig7-FiresLess price (some low) p h = ground arith

  -- The tightened sig5 is strictly tighter: whenever it fires with F1 (three lower closes before
  -- the up close), it fires without F1, whatever the other switches.
  pub sig5_tightened :
      (wc : List F) (p q : Profile)
      → p.f1 ≡ true
      → q.f1 ≡ false
      → FiresLess (sig5_first_up_close wc p) (sig5_first_up_close wc q)
  unfolding sig5_first_up_close lower_closes
  sig5_tightened wc p q hp hq h = ground arith
