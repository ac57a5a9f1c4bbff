-- ===== src/Scoring/Indicators.antt =====
-- deepfield/indicators.py: EMA, RSI, MACD and SMA over a cleaned series. A period is at least 1, as
-- every caller's is.
use oracle_deepfield.Base.{
  ℕ, ◌+◌, ◌-◌, Bool, not, ◌&&◌, Option, none, some, List, [], ◌∷◌, ◌++◌, map, length, take, drop,
  replicate, get_elem?, if◌then◌else◌, ltb, leb,
}
use oracle_deepfield.Num.{Float, nought, of_ℕ, fmax, fsum, neg}

module _ {F : Type 0} ⦃fl : Float F⦄ where
  open fl use {add, sub, mul, div, lt, le, eq, is_inf, is_nan}

  -- `math.isfinite`
  abbrev pub is_finite : F → Bool
  is_finite x = not (is_inf x) && not (is_nan x)

  -- `safe_float`, and `clean`
  unfoldable pub safe_float : F → F
  safe_float x = if is_finite x then x else nought

  unfoldable pub clean : List F → List F
  unfolding safe_float
  clean = map safe_float

  abbrev pub zeros : ℕ → List F
  zeros n = replicate n nought

  -- `sum(xs) / n`
  abbrev pub mean : ℕ → List F → F
  mean n xs = div (fsum xs) (of_ℕ n)

  -- One step of an exponential average: `x * k + prev * (1.0 - k)`.
  abbrev pub blend : F → F → F → F
  blend k prev x = add (mul x k) (mul prev (sub (of_ℕ 1) k))

  -- `2.0 / (period + 1)`
  abbrev pub ema_weight : ℕ → F
  ema_weight period = div (of_ℕ 2) (of_ℕ (period + 1))

  unfoldable pub ema_rest : F → F → List F → List F
  ema_rest k prev [] = []
  ema_rest k prev (x ∷ xs) = blend k prev x ∷ ema_rest k (blend k prev x) xs

  -- The EMA of a cleaned series.
  unfoldable pub ema_of : List F → ℕ → List F
  unfolding ema_rest
  ema_of s period =
      let seed = mean period (take period s) in
      if ltb (length s) period
      then zeros (length s)
      else zeros (period - 1) ++ seed ∷ ema_rest (ema_weight period) seed (drop period s)

  -- `calc_ema`
  unfoldable pub calc_ema : List F → ℕ → List F
  unfolding clean ema_of
  calc_ema series period = ema_of (clean series) period

  -- The gain and the loss of each bar against the one before.
  unfoldable pub moves_from : F → List F → List (F × F)
  moves_from prev [] = []
  moves_from prev (x ∷ xs) =
      (fmax (sub x prev) nought, fmax (neg (sub x prev)) nought) ∷ moves_from x xs

  unfoldable pub moves : List F → List (F × F)
  unfolding moves_from
  moves [] = []
  moves (x ∷ xs) = moves_from x xs

  -- The RSI at an average gain and loss.
  abbrev pub rsi_at : F → F → F
  rsi_at gain loss =
      if eq loss nought
      then of_ℕ 100
      else sub (of_ℕ 100) (div (of_ℕ 100) (add (of_ℕ 1) (div gain loss)))

  -- Wilder's smoothing: `(avg * (period - 1) + x) / period`
  abbrev pub wilder : ℕ → F → F → F
  wilder period avg x = div (add (mul avg (of_ℕ (period - 1))) x) (of_ℕ period)

  unfoldable pub rsi_rest : ℕ → F → F → List (F × F) → List F
  rsi_rest period gain loss [] = []
  rsi_rest period gain loss ((g, l) ∷ r) =
      rsi_at (wilder period gain g) (wilder period loss l)
      ∷ rsi_rest period (wilder period gain g) (wilder period loss l) r

  unfoldable pub rsi_of : List F → ℕ → List F
  unfolding moves rsi_rest
  rsi_of s period =
      let ms = moves s in
      let gain = mean period (map (λ m. m.0) (take period ms)) in
      let loss = mean period (map (λ m. m.1) (take period ms)) in
      if ltb (length s) (period + 1)
      then zeros (length s)
      else zeros period ++ rsi_at gain loss ∷ rsi_rest period gain loss (drop period ms)

  -- `calc_rsi`
  unfoldable pub calc_rsi : List F → ℕ → List F
  unfolding clean rsi_of
  calc_rsi series period = rsi_of (clean series) period

  -- The MACD line: the difference, where both averages are there.
  unfoldable pub macd_line_of : List F → List F → List F
  macd_line_of (f ∷ fs) (s ∷ ss) =
      (if not (eq f nought) && not (eq s nought) then sub f s else nought) ∷ macd_line_of fs ss
  macd_line_of _ _ = []

  -- The bars from `start` on that have a MACD value, with their numbers; i is the number of the
  -- first bar of the list.
  unfoldable pub valid_from : ℕ → ℕ → List F → List (ℕ × F)
  valid_from start i [] = []
  valid_from start i (x ∷ xs) =
      if leb start i && not (eq x nought)
      then (i, x) ∷ valid_from start (i + 1) xs
      else valid_from start (i + 1) xs

  unfoldable pub signal_rest : F → F → List F → List F
  signal_rest k prev [] = []
  signal_rest k prev (x ∷ xs) =
      let v = if not (eq x nought) then blend k prev x else prev in v ∷ signal_rest k v xs

  -- The signal line, seeded at the bar of the last of the first `period` values.
  unfoldable pub signal_at : List F → ℕ → List (ℕ × F) → Option (ℕ × F) → List F
  unfolding signal_rest
  signal_at line period valid none = zeros (length line)
  signal_at line period valid (some (i, x)) =
      let seed = mean period (map (λ v. v.1) (take period valid)) in
      zeros i ++ seed ∷ signal_rest (ema_weight period) seed (drop (i + 1) line)

  unfoldable pub signal_line_of : List F → ℕ → ℕ → List F
  unfolding valid_from signal_at
  signal_line_of line slow period =
      let valid = valid_from (slow - 1) 0 line in
      signal_at line period valid (get_elem? valid (period - 1))

  abbrev pub differences : List F → List F → List F
  differences (a ∷ as') (b ∷ bs) = sub a b ∷ differences as' bs
  differences _ _ = []

  -- `calc_macd`: the MACD line, the signal line and the histogram.
  unfoldable pub calc_macd : List F → ℕ → ℕ → ℕ → List F × List F × List F
  unfolding calc_ema macd_line_of signal_line_of
  calc_macd series fast slow period =
      let s = clean series in
      let line = macd_line_of (calc_ema s fast) (calc_ema s slow) in
      let signal = signal_line_of line slow period in (line, signal, differences line signal)

  -- The means of all windows of the period.
  unfoldable pub windows : ℕ → List F → List F
  windows period [] = []
  windows period (x ∷ xs) =
      if ltb (length (x ∷ xs)) period
      then []
      else mean period (take period (x ∷ xs)) ∷ windows period xs

  -- `calc_sma`
  unfoldable pub calc_sma : List F → ℕ → List F
  unfolding clean windows
  calc_sma series period =
      let s = clean series in
      if ltb (length s) period then zeros (length s) else zeros (period - 1) ++ windows period s
