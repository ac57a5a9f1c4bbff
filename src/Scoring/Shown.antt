-- ===== src/Scoring/Shown.antt =====
-- Which distances a card of deepfield/engine.py shows.
use oracle_deepfield.Base.{
  ℕ, ◌≡◌, refl, Bool, true, not, ◌&&◌, Option, none, some, List, [], ◌++◌, arith, All, All-append,
  if_splits, &&-left,
}
use oracle_deepfield.Base.Names.{Name}
use oracle_deepfield.Num.{Float, nought}
use oracle_deepfield.Scoring.Indicators.{calc_ema, calc_rsi, calc_macd, calc_sma}
use oracle_deepfield.Scoring.Signals.{Profile, SignalResult, at_end, is_empty}
use oracle_deepfield.Scoring.Gaps.{
  Gap, missed, rsi_gap, low_gap, ema_entry, rsi_entry, histogram_entry, divergence_entry,
  close_entry, volume_entry, low_entry, gap_metrics,
}
use oracle_deepfield.Scoring.Engine.{Weekly, evaluate}

module _ {F : Type 0} ⦃fl : Float F⦄ where
  open fl use {lt}

  -- Every distance is for a slot that was judged and did not fire.
  abbrev pub AreMissed : List SignalResult → List (ℕ × Gap F) → Type 0
  AreMissed rs = All (λ g. missed g.0 rs ≡ true)

  rsi_gap-AreMissed :
      (rs : List SignalResult) (rsi : List F) → missed 2 rs ≡ true → AreMissed rs (rsi_gap rsi)
  unfolding rsi_gap
  rsi_gap-AreMissed rs rsi h = ground (arith, h)

  low_gap-AreMissed :
      (rs : List SignalResult) (price : F) (low : Option F)
      → missed 7 rs ≡ true
      → AreMissed rs (low_gap price low)
  unfolding low_gap
  low_gap-AreMissed rs price none h = tt
  low_gap-AreMissed rs price (some low) h = ground (arith, h)

  rsi_entry-AreMissed : (rs : List SignalResult) (rsi : List F) → AreMissed rs (rsi_entry rs rsi)
  unfolding rsi_entry
  rsi_entry-AreMissed rs rsi =
      if_splits (AreMissed rs) (missed 2 rs && (not (is_empty rsi) && lt nought (at_end 1 rsi)))
        (rsi_gap rsi) [] (λ e. rsi_gap-AreMissed rs rsi (&&-left _ _ e)) (λ e. tt)

  low_entry-AreMissed :
      (rs : List SignalResult) (price : F) (low : Option F) → AreMissed rs (low_entry rs price low)
  unfolding low_entry
  low_entry-AreMissed rs price low =
      if_splits (AreMissed rs) (missed 7 rs) (low_gap price low) []
        (λ e. low_gap-AreMissed rs price low e) (λ e. tt)

  ema_entry-AreMissed :
      (rs : List SignalResult) (wc ema : List F) → AreMissed rs (ema_entry rs wc ema)
  unfolding ema_entry
  ema_entry-AreMissed rs wc ema = ground arith

  histogram_entry-AreMissed :
      (rs : List SignalResult) (hist : List F) → AreMissed rs (histogram_entry rs hist)
  unfolding histogram_entry
  histogram_entry-AreMissed rs hist = ground arith

  divergence_entry-AreMissed :
      (rs : List SignalResult) (gs : List (ℕ × Gap F)) → gs ≡ divergence_entry rs → AreMissed rs gs
  unfolding divergence_entry
  divergence_entry-AreMissed rs gs e = rw e (ground arith)

  close_entry-AreMissed : (rs : List SignalResult) (wc : List F) → AreMissed rs (close_entry rs wc)
  unfolding close_entry
  close_entry-AreMissed rs wc = ground arith

  volume_entry-AreMissed :
      (rs : List SignalResult) (wvol sma wc wo : List F)
      → AreMissed rs (volume_entry rs wvol sma wc wo)
  unfolding volume_entry
  volume_entry-AreMissed rs wvol sma wc wo = ground arith

  join-AreMissed :
      (rs : List SignalResult) (xs ys : List (ℕ × Gap F))
      → AreMissed rs xs
      → AreMissed rs ys
      → AreMissed rs (xs ++ ys)
  join-AreMissed rs xs ys a b = All-append (λ g. missed g.0 rs ≡ true) xs ys a b

  gap_metrics-AreMissed :
      (rs : List SignalResult) (wc ema rsi hist sma wvol wo : List F) (price : F) (low : Option F)
      → AreMissed rs (gap_metrics rs wc ema rsi hist sma wvol wo price low)
  unfolding gap_metrics
  gap_metrics-AreMissed rs wc ema rsi hist sma wvol wo price low =
      let g7 = low_entry rs price low in
      let g6 = volume_entry rs wvol sma wc wo ++ g7 in
      let g5 = close_entry rs wc ++ g6 in
      let g4 = divergence_entry rs ++ g5 in
      let g3 = histogram_entry rs hist ++ g4 in
      let g2 = rsi_entry rs rsi ++ g3 in
      join-AreMissed rs (ema_entry rs wc ema) g2 (ema_entry-AreMissed rs wc ema) (
        join-AreMissed rs (rsi_entry rs rsi) g3 (rsi_entry-AreMissed rs rsi) (
          join-AreMissed rs (histogram_entry rs hist) g4 (histogram_entry-AreMissed rs hist) (
            join-AreMissed rs (divergence_entry rs) g5
              (divergence_entry-AreMissed rs (divergence_entry rs) refl)
              (join-AreMissed rs (close_entry rs wc) g6 (close_entry-AreMissed rs wc) (
                join-AreMissed rs (volume_entry rs wvol sma wc wo) g7
                  (volume_entry-AreMissed rs wvol sma wc wo) (low_entry-AreMissed rs price low))))))

  -- A card shows a distance only for a slot that was judged and did not fire: never for one that
  -- fired, and never for one that is N/A.
  pub evaluate-AreMissed :
      (symbol : Name) (w : Weekly F) (dc : List F) (p : Profile) (provisional : Bool)
      (elapsed : Option F)
      → AreMissed
          (evaluate symbol w dc p provisional elapsed).results
          (evaluate symbol w dc p provisional elapsed).gap
  unfolding evaluate
  evaluate-AreMissed symbol w dc p provisional elapsed =
      let card = evaluate symbol w dc p provisional elapsed in
      gap_metrics-AreMissed card.results w.wc (calc_ema w.wc 200) (calc_rsi w.wc 14)
        (calc_macd w.wc 12 26 9).2 (calc_sma w.wvol 20) w.wvol w.wo card.price card.low_52w
