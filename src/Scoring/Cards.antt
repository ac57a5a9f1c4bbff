-- ===== src/Scoring/Cards.antt =====
-- The score cards of deepfield/engine.py: every slot once, N/A never inflates a score, and what a
-- BUY needs.
use oracle_deepfield.Base.{
  ℕ, ◌+◌, ◌*◌, ◌≤◌, ◌<◌, ◌≡◌, ◌↔◌, ◌⊎◌, refl, Bool, true, false, not, Option, none, some, List, [],
  ◌∷◌, map, arith, length, count_of-le, length-map, ap, ◌++◌, if_keeps, ltb,
}
use oracle_deepfield.Base.Names.{Name}
use oracle_deepfield.Num.{Float}
use oracle_deepfield.Scoring.Indicators.{calc_ema, calc_rsi, calc_macd, calc_sma}
use oracle_deepfield.Scoring.Signals.{
  Profile, Why, few_weekly, few_daily, no_low, at_end, all_but_last, SignalResult, lacking,
  sig1_below_wema200, sig2_wrsi_turning_up, sig3_macd_crossup, sig4_drsi_divergence,
  sig5_first_up_close, sig6_vol_accumulation, sig7_near_52w_low,
}
use oracle_deepfield.Scoring.Strictness.{
  without_f3, FiresLess, sig1-FiresLess, sig2-FiresLess, sig3-FiresLess, sig4-FiresLess,
  sig5-FiresLess, sig6-FiresLess, sig7-FiresLess,
}
use oracle_deepfield.Scoring.Engine.{
  buy, none_yet, Weekly, is_na, required_of, score_of, denom_of, grade_of, all_na, least_of, sig6,
  seven, results_of, evaluate, closes_52w, last_or_zero,
}

-- The slots of the results, in order.
abbrev pub slots : List SignalResult → List ℕ
slots = map (λ r. r.slot)

abbrev pub one_to_seven : List ℕ
one_to_seven = 1 ∷ 2 ∷ 3 ∷ 4 ∷ 5 ∷ 6 ∷ 7 ∷ []

-- A score counts fewer results than the denominator, that at most all.
score_of-le-denom_of : (rs : List SignalResult) → score_of rs ≤ denom_of rs
unfolding score_of denom_of
score_of-le-denom_of [] = omega arith
score_of-le-denom_of (r ∷ rs) = ground (arith, score_of-le-denom_of rs)

-- Result by result, whatever fires in the first list fires in the second.
abbrev pub AllFireLess : List SignalResult → List SignalResult → Type 0
AllFireLess [] bs = Unit {0}
AllFireLess (a ∷ as') [] = ⊥
AllFireLess (a ∷ as') (b ∷ bs) = FiresLess a b × AllFireLess as' bs

score_of_mono : (as' bs : List SignalResult) → AllFireLess as' bs → score_of as' ≤ score_of bs
unfolding score_of
score_of_mono [] bs h = omega arith
score_of_mono (a ∷ as') [] h = elim h [ ]
score_of_mono (a ∷ as') (b ∷ bs) h = ground (arith, score_of_mono as' bs h.1, h.0)

required_of_bounds :
    (d : ℕ) (p : Profile) → d ≤ 7 → (2 ≤ required_of d p) × (10 * d ≤ 14 * required_of d p + 7)
unfolding required_of
required_of_bounds d p h =
    if_keeps (λ r. (2 ≤ r) × (10 * d ≤ 14 * r + 7)) p.f3 _ 5 (omega arith) (omega arith)

grade_of-eq-buy : (score required : ℕ) → (grade_of score required ≡ buy) ↔ (required ≤ score)
unfolding grade_of
grade_of-eq-buy score required = ground arith

lacking_slot : (n : ℕ) (p : Profile) (why : Why) → (lacking n p why).slot ≡ n
lacking_slot n p why = ground arith

module _ {F : Type 0} ⦃fl : Float F⦄ where
  open fl use {div}

  sig6-FiresLess_elapsed :
      (w : Weekly F) (sma : List F) (p : Profile) (provisional : Bool) (elapsed : Option F)
      → FiresLess (sig6 w sma p provisional elapsed) (sig6 w sma (without_f3 p) provisional elapsed)
  unfolding sig6
  sig6-FiresLess_elapsed w sma p false elapsed = sig6-FiresLess w.wo w.wh w.wl w.wc w.wvol sma p
  sig6-FiresLess_elapsed w sma p true none = λ h. cc
  sig6-FiresLess_elapsed w sma p true (some part) = λ h. ground arith

  seven-AllFireLess :
      (w : Weekly F) (dc : List F) (p : Profile) (provisional : Bool) (elapsed : Option F)
      → AllFireLess
          (seven w dc p provisional elapsed)
          (seven w dc (without_f3 p) provisional elapsed)
  unfolding seven
  seven-AllFireLess w dc p provisional elapsed = (
    sig1-FiresLess w.wc (calc_ema w.wc 200) p,
    (
      sig2-FiresLess (calc_rsi w.wc 14) p,
      (
        sig3-FiresLess (calc_macd w.wc 12 26 9).2 p,
        (
          sig4-FiresLess dc (calc_rsi dc 14) p,
          (
            sig5-FiresLess w.wc p,
            (
              sig6-FiresLess_elapsed w (calc_sma w.wvol 20) p provisional elapsed,
              (sig7-FiresLess (last_or_zero dc) (least_of (closes_52w w)) p, tt),
            ),
          ),
        ),
      ),
    ),
  )

  results_of-AllFireLess :
      (w : Weekly F) (dc : List F) (p : Profile) (provisional : Bool) (elapsed : Option F)
      → score_of (results_of w dc p provisional elapsed)
        ≤ score_of (results_of w dc (without_f3 p) provisional elapsed)
  unfolding results_of all_na score_of
  results_of-AllFireLess w dc p provisional elapsed = ground (
    arith,
    score_of_mono (seven w dc p provisional elapsed) (seven w dc (without_f3 p) provisional elapsed)
        (seven-AllFireLess w dc p provisional elapsed),
  )

  -- N/A never inflates a score: with F3 on, a pair's score is at most what it is with F3 off, on the
  -- same candles and with the other switches alike, confirmed or provisional.
  pub evaluate_na_never_inflates :
      (symbol : Name) (w : Weekly F) (dc : List F) (p : Profile) (provisional : Bool)
      (elapsed : Option F)
      → (evaluate symbol w dc p provisional elapsed).score
        ≤ (evaluate symbol w dc (without_f3 p) provisional elapsed).score
  unfolding evaluate
  evaluate_na_never_inflates symbol w dc p provisional elapsed =
      results_of-AllFireLess w dc p provisional elapsed

  sig1_slot : (wc ema : List F) (p : Profile) → (sig1_below_wema200 wc ema p).slot ≡ 1
  unfolding sig1_below_wema200
  sig1_slot wc ema p = ground arith

  sig2_slot : (rsi : List F) (p : Profile) → (sig2_wrsi_turning_up rsi p).slot ≡ 2
  unfolding sig2_wrsi_turning_up
  sig2_slot rsi p = ground arith

  sig3_slot : (hist : List F) (p : Profile) → (sig3_macd_crossup hist p).slot ≡ 3
  unfolding sig3_macd_crossup
  sig3_slot hist p = ground arith

  sig4_slot : (dc rsi : List F) (p : Profile) → (sig4_drsi_divergence dc rsi p).slot ≡ 4
  unfolding sig4_drsi_divergence
  sig4_slot dc rsi p = ground arith

  sig5_slot : (wc : List F) (p : Profile) → (sig5_first_up_close wc p).slot ≡ 5
  unfolding sig5_first_up_close
  sig5_slot wc p = ground arith

  sig6_slot :
      (wo wh wl wc wvol sma : List F) (p : Profile)
      → (sig6_vol_accumulation wo wh wl wc wvol sma p).slot ≡ 6
  unfolding sig6_vol_accumulation
  sig6_slot wo wh wl wc wvol sma p = ground arith

  sig6_slot_elapsed :
      (w : Weekly F) (sma : List F) (p : Profile) (provisional : Bool) (elapsed : Option F)
      → (sig6 w sma p provisional elapsed).slot ≡ 6
  unfolding sig6
  sig6_slot_elapsed w sma p false elapsed = sig6_slot w.wo w.wh w.wl w.wc w.wvol sma p
  sig6_slot_elapsed w sma p true none = refl
  sig6_slot_elapsed w sma p true (some part) = ground (
    arith,
    sig6_slot w.wo w.wh w.wl w.wc (all_but_last w.wvol ++ div (at_end 1 w.wvol) part ∷ [])
        (calc_sma (all_but_last w.wvol ++ div (at_end 1 w.wvol) part ∷ []) 20) p,
  )

  sig7_slot : (price : F) (low : Option F) (p : Profile) → (sig7_near_52w_low price low p).slot ≡ 7
  unfolding sig7_near_52w_low
  sig7_slot price none p = lacking_slot 7 p no_low
  sig7_slot price (some low) p = ground arith

  slots-seven :
      (w : Weekly F) (dc : List F) (p : Profile) (provisional : Bool) (elapsed : Option F)
      → slots (seven w dc p provisional elapsed) ≡ one_to_seven
  unfolding seven
  slots-seven w dc p provisional elapsed = rw (
    sig1_slot w.wc (calc_ema w.wc 200) p,
    sig2_slot (calc_rsi w.wc 14) p,
    sig3_slot (calc_macd w.wc 12 26 9).2 p,
    sig4_slot dc (calc_rsi dc 14) p,
    sig5_slot w.wc p,
    sig6_slot_elapsed w (calc_sma w.wvol 20) p provisional elapsed,
    sig7_slot (last_or_zero dc) (least_of (closes_52w w)) p,
  )

  slots-results_of :
      (w : Weekly F) (dc : List F) (p : Profile) (provisional : Bool) (elapsed : Option F)
      → slots (results_of w dc p provisional elapsed) ≡ one_to_seven
  unfolding results_of all_na
  slots-results_of w dc p provisional elapsed =
      if_keeps (λ rs. slots rs ≡ one_to_seven) (ltb (length w.wc) 30) (all_na p few_weekly) _ refl
        (if_keeps (λ rs. slots rs ≡ one_to_seven) (ltb (length dc) 30) (all_na p few_daily)
          (seven w dc p provisional elapsed) refl (slots-seven w dc p provisional elapsed))

  denom_of-le-seven :
      (w : Weekly F) (dc : List F) (p : Profile) (provisional : Bool) (elapsed : Option F)
      → denom_of (results_of w dc p provisional elapsed) ≤ 7
  unfolding denom_of
  denom_of-le-seven w dc p provisional elapsed =
      let rs = results_of w dc p provisional elapsed in
      omega (
        arith,
        count_of-le (λ (r : SignalResult). not (is_na r.state)) rs,
        ap length (slots-results_of w dc p provisional elapsed),
        length-map (λ (r : SignalResult). r.slot) rs,
      )

  -- Every card reports the slots 1 to 7 once each, in order, and its score is at most its
  -- denominator, which is at most 7.
  pub evaluate-slots :
      (symbol : Name) (w : Weekly F) (dc : List F) (p : Profile) (provisional : Bool)
      (elapsed : Option F)
      → let card = evaluate symbol w dc p provisional elapsed in
        (slots card.results ≡ one_to_seven) × (card.score ≤ card.denom) × (card.denom ≤ 7)
  unfolding evaluate
  evaluate-slots symbol w dc p provisional elapsed =
      let rs = results_of w dc p provisional elapsed in
      let e = slots-results_of w dc p provisional elapsed in
      (e, score_of-le-denom_of rs, denom_of-le-seven w dc p provisional elapsed)

  -- A BUY needs a score of at least 2, and of at least five sevenths of the slots that could be
  -- judged, to the nearest integer; it comes exactly when the score meets the requirement.
  pub evaluate_buy :
      (symbol : Name) (w : Weekly F) (dc : List F) (p : Profile) (provisional : Bool)
      (elapsed : Option F)
      → let card = evaluate symbol w dc p provisional elapsed in
        ((card.status ≡ buy) ↔ (card.required ≤ card.score))
        × (2 ≤ card.required)
        × (10 * card.denom ≤ 14 * card.required + 7)
  unfolding evaluate
  evaluate_buy symbol w dc p provisional elapsed =
      let rs = results_of w dc p provisional elapsed in
      let (two, share) =
        required_of_bounds (denom_of rs) p (denom_of-le-seven w dc p provisional elapsed) in
      (grade_of-eq-buy (score_of rs) (required_of (denom_of rs) p), two, share)

  -- A pair with fewer than 30 weekly or 30 daily bars has a card of N/A only, with score 0 and
  -- denominator 0, and is no BUY under any profile.
  pub evaluate_young :
      (symbol : Name) (w : Weekly F) (dc : List F) (p : Profile) (provisional : Bool)
      (elapsed : Option F)
      → (length w.wc < 30) ⊎ (length dc < 30)
      → let card = evaluate symbol w dc p provisional elapsed in
        (card.score ≡ 0) × (card.denom ≡ 0) × (card.status ≡ none_yet)
  unfolding evaluate results_of all_na score_of denom_of grade_of required_of
  evaluate_young symbol w dc p provisional elapsed h = ground arith
