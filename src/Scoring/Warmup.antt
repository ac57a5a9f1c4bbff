-- ===== src/Scoring/Warmup.antt =====
-- The indicators of deepfield/indicators.py are as long as their series, and 0 where there is not
-- enough of it.
use oracle_deepfield.Base.{
  ℕ, zero, suc, ◌+◌, ◌-◌, ◌<◌, ◌≤◌, ◌≡◌, refl, ap, not, Option, none, some, List, [], ◌∷◌, ◌++◌,
  map, arith, length, take, drop, get_elem?, length-append, length-replicate, length-drop,
  length-map, ◌∙◌, if◌then◌else◌, if_splits, ltb, ltb→lt,
}
use oracle_deepfield.Num.{Float, nought}
use oracle_deepfield.Scoring.Indicators.{
  safe_float, clean, zeros, mean, blend, wilder, ema_weight, ema_rest, ema_of, calc_ema, moves_from,
  moves, rsi_at, rsi_rest, rsi_of, calc_rsi, macd_line_of, valid_from, signal_rest, signal_at,
  signal_line_of, differences, calc_macd, windows, calc_sma,
}

module _ {F : Type 0} ⦃fl : Float F⦄ where
  open fl use {eq}

  length-clean : (xs : List F) → length (clean xs) ≡ length xs
  unfolding clean
  length-clean xs = length-map safe_float xs

  -- A line that is 0 on its first n bars.
  abbrev pub StartsAtZero : ℕ → List F → Type 0
  StartsAtZero n xs = take n xs ≡ zeros n

  length-zeros : (n : ℕ) (xs : List F) → length (zeros n ++ xs) ≡ n + length xs
  length-zeros n xs = rw (length-append (zeros n) xs, length-replicate n nought)

  zeros-StartsAtZero : (n : ℕ) (xs : List F) → StartsAtZero n (zeros n ++ xs)
  zeros-StartsAtZero zero xs = refl
  zeros-StartsAtZero (suc n) xs = ap (◌∷◌ nought) (zeros-StartsAtZero n xs)

  length-ema_rest : (k prev : F) (xs : List F) → length (ema_rest k prev xs) ≡ length xs
  unfolding ema_rest
  length-ema_rest k prev [] = refl
  length-ema_rest k prev (x ∷ xs) = ap suc (length-ema_rest k (blend k prev x) xs)

  length-ema_of : (s : List F) (period : ℕ) → 0 < period → length (ema_of s period) ≡ length s
  unfolding ema_of
  length-ema_of s period pos =
      let k = ema_weight period in
      let seed = mean period (take period s) in
      if_splits (λ xs. length xs ≡ length s) (ltb (length s) period) (zeros (length s))
        (zeros (period - 1) ++ seed ∷ ema_rest k seed (drop period s))
        (λ _. length-replicate (length s) nought)
        (λ long. ground (
          arith,
          length-zeros (period - 1) (seed ∷ ema_rest k seed (drop period s)),
          length-ema_rest k seed (drop period s),
          length-drop period s,
        ))

  -- The EMA has a value for every bar of its series, and is 0 before the bar that completes the
  -- first period.
  pub calc_ema_warmup :
      (series : List F) (period : ℕ)
      → 0 < period
      → period ≤ length series
      → (length (calc_ema series period) ≡ length series)
        × StartsAtZero (period - 1) (calc_ema series period)
  unfolding calc_ema ema_of
  calc_ema_warmup series period pos long =
      let s = clean series in
      let n : length s ≡ length series = length-clean series in
      (
        length-ema_of s period pos ∙ n,
        if_splits (StartsAtZero (period - 1)) (ltb (length s) period) (zeros (length s)) _
            (λ short. absurd (omega (arith, ltb→lt (length s) period short, n)))
            (λ _. zeros-StartsAtZero (period - 1) _),
      )

  -- A series shorter than the period has an EMA of zeros.
  pub calc_ema_short :
      (series : List F) (period : ℕ)
      → length series < period
      → calc_ema series period ≡ zeros (length series)
  unfolding calc_ema ema_of
  calc_ema_short series period short = ground (arith, length-clean series)

  length-moves_from : (prev : F) (xs : List F) → length (moves_from prev xs) ≡ length xs
  unfolding moves_from
  length-moves_from prev [] = refl
  length-moves_from prev (x ∷ xs) = ap suc (length-moves_from x xs)

  length-moves : (xs : List F) → length (moves xs) ≡ length xs - 1
  unfolding moves
  length-moves [] = refl
  length-moves (x ∷ xs) = omega (arith, length-moves_from x xs)

  length-rsi_rest :
      (period : ℕ) (gain loss : F) (ms : List (F × F))
      → length (rsi_rest period gain loss ms) ≡ length ms
  unfolding rsi_rest
  length-rsi_rest period gain loss [] = refl
  length-rsi_rest period gain loss ((g, l) ∷ r) =
      ap suc (length-rsi_rest period (wilder period gain g) (wilder period loss l) r)

  -- The RSI has a value for every bar of its series, whatever its length.
  pub length-calc_rsi :
      (series : List F) (period : ℕ) → length (calc_rsi series period) ≡ length series
  unfolding calc_rsi rsi_of
  length-calc_rsi series period =
      let s = clean series in
      let ms = moves s in
      let gain = mean period (map (λ m. m.0) (take period ms)) in
      let loss = mean period (map (λ m. m.1) (take period ms)) in
      let rest = rsi_rest period gain loss (drop period ms) in
      if_splits (λ xs. length xs ≡ length s) (ltb (length s) (period + 1)) (zeros (length s))
        (zeros period ++ rsi_at gain loss ∷ rest) (λ _. length-replicate (length s) nought)
        (λ long. ground (
          arith,
          length-zeros period (rsi_at gain loss ∷ rest),
          length-rsi_rest period gain loss (drop period ms),
          length-drop period ms,
          length-moves s,
        ))
      ∙ length-clean series

  length-windows :
      (period : ℕ) (xs : List F) → 0 < period → length (windows period xs) ≡ length xs + 1 - period
  unfolding windows
  length-windows period [] pos = omega arith
  length-windows period (x ∷ xs) pos = ground (arith, length-windows period xs)

  -- The moving average has a value for every bar of its series, whatever its length.
  pub length-calc_sma :
      (series : List F) (period : ℕ) → 0 < period → length (calc_sma series period) ≡ length series
  unfolding calc_sma
  length-calc_sma series period pos =
      let s = clean series in
      if_splits (λ xs. length xs ≡ length s) (ltb (length s) period) (zeros (length s))
        (zeros (period - 1) ++ windows period s) (λ _. length-replicate (length s) nought)
        (λ long.
          ground (arith, length-zeros (period - 1) (windows period s), length-windows period s pos))
      ∙ length-clean series

  length-macd_line_of :
      (fs ss : List F) → length fs ≡ length ss → length (macd_line_of fs ss) ≡ length ss
  unfolding macd_line_of
  length-macd_line_of [] [] e = refl
  length-macd_line_of [] (s ∷ ss) e = absurd (omega arith)
  length-macd_line_of (f ∷ fs) [] e = absurd (omega arith)
  length-macd_line_of (f ∷ fs) (s ∷ ss) e = omega (arith, length-macd_line_of fs ss (omega arith))

  -- The numbers of the valid bars lie within the line.
  valid_from-lt :
      (start i j : ℕ) (xs : List F) (v : ℕ × F)
      → get_elem? (valid_from start i xs) j ≡ some v
      → v.0 < i + length xs
  unfolding valid_from
  valid_from-lt start i j [] v e = cc
  valid_from-lt start i zero (x ∷ xs) v e = ground (arith, valid_from-lt start (i + 1) zero xs v)
  valid_from-lt start i (suc j) (x ∷ xs) v e =
      ground (arith, valid_from-lt start (i + 1) j xs v, valid_from-lt start (i + 1) (suc j) xs v)

  length-signal_rest : (k prev : F) (xs : List F) → length (signal_rest k prev xs) ≡ length xs
  unfolding signal_rest
  length-signal_rest k prev [] = refl
  length-signal_rest k prev (x ∷ xs) =
      ap suc (length-signal_rest k (if not (eq x nought) then blend k prev x else prev) xs)

  length-signal_at :
      (line : List F) (period : ℕ) (valid : List (ℕ × F)) (seed : Option (ℕ × F))
      → ((v : ℕ × F) → seed ≡ some v → v.0 < length line)
      → length (signal_at line period valid seed) ≡ length line
  unfolding signal_at
  length-signal_at line period valid none h = length-replicate (length line) nought
  length-signal_at line period valid (some (i, x)) h =
      let k = ema_weight period in
      let seed = mean period (map (λ v. v.1) (take period valid)) in
      let rest = signal_rest k seed (drop (i + 1) line) in
      omega (
        arith,
        length-zeros i (seed ∷ rest),
        length-signal_rest k seed (drop (i + 1) line),
        length-drop (i + 1) line,
        h (i, x) refl,
      )

  length-signal_line_of :
      (line : List F) (slow period : ℕ) → length (signal_line_of line slow period) ≡ length line
  unfolding signal_line_of
  length-signal_line_of line slow period =
      let valid = valid_from (slow - 1) 0 line in
      length-signal_at line period valid (get_elem? valid (period - 1))
        (λ v e. omega (arith, valid_from-lt (slow - 1) 0 (period - 1) line v e))

  length-differences :
      (as' bs : List F) → length as' ≡ length bs → length (differences as' bs) ≡ length bs
  length-differences [] [] e = refl
  length-differences [] (b ∷ bs) e = absurd (omega arith)
  length-differences (a ∷ as') [] e = absurd (omega arith)
  length-differences (a ∷ as') (b ∷ bs) e = omega (arith, length-differences as' bs (omega arith))

  -- The MACD line, its signal line and the histogram each have a value for every bar of the series.
  pub length-calc_macd :
      (series : List F) (fast slow period : ℕ)
      → 0 < fast
      → 0 < slow
      → let (line, signal, histogram) = calc_macd series fast slow period in
        (length line ≡ length series)
        × (length signal ≡ length series)
        × (length histogram ≡ length series)
  unfolding calc_macd calc_ema
  length-calc_macd series fast slow period pf ps =
      let s = clean (clean series) in
      let line = macd_line_of (ema_of s fast) (ema_of s slow) in
      let signal = signal_line_of line slow period in
      let n : length s ≡ length series = length-clean (clean series) ∙ length-clean series in
      let m : length line ≡ length series =
        length-macd_line_of (ema_of s fast) (ema_of s slow)
          (omega (arith, length-ema_of s fast pf, length-ema_of s slow ps))
        ∙ length-ema_of s slow ps
        ∙ n in
      let k : length signal ≡ length line = length-signal_line_of line slow period in
      (m, k ∙ m, length-differences line signal (omega (arith, k)) ∙ k ∙ m)
