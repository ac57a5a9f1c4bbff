-- ===== src/Scoring/Tests.antt =====
-- The theorems on the scoring core applied to concrete series.
use oracle_deepfield.Base.{◌*◌, ◌+◌, ◌≤◌, ◌≡◌, ◌↔◌, refl, false, none, List, [], ◌∷◌, ◌++◌}
use oracle_deepfield.Base.Names.{codes}
use oracle_deepfield.Num.{of_ℕ}
use oracle_deepfield.Num.Fixed.{Fixed, fixed}
use oracle_deepfield.Scoring.Signals.{full, fired, sig5_first_up_close}
use oracle_deepfield.Scoring.Strictness.{without_f3}
use oracle_deepfield.Scoring.Engine.{Weekly, buy, evaluate}
use oracle_deepfield.Scoring.Cards.{
  slots, one_to_seven, evaluate_na_never_inflates, evaluate-slots, evaluate_buy,
}
use oracle_deepfield.Scoring.Shown.{AreMissed, evaluate-AreMissed}

abbrev prices : List Fixed
prices =
    of_ℕ 40
    ∷ of_ℕ 38
    ∷ of_ℕ 41
    ∷ of_ℕ 37
    ∷ of_ℕ 35
    ∷ of_ℕ 36
    ∷ of_ℕ 34
    ∷ of_ℕ 33
    ∷ of_ℕ 32
    ∷ of_ℕ 39
    ∷ []

-- Forty bars.
abbrev history : List Fixed
history = prices ++ prices ++ prices ++ prices

abbrev week : Weekly Fixed
week = record { wo = history; wh = history; wl = history; wc = history; wvol = history }

abbrev young_week : Weekly Fixed
young_week = record { wo = prices; wh = prices; wl = prices; wc = prices; wvol = prices }

fires_on_the_up_close : (sig5_first_up_close prices full).state ≡ fired
unfolding sig5_first_up_close
fires_on_the_up_close = refl

evaluate_na_never_inflates_example :
    (evaluate (codes "BTC/USD") week history full false none).score
    ≤ (evaluate (codes "BTC/USD") week history (without_f3 full) false none).score
evaluate_na_never_inflates_example =
    evaluate_na_never_inflates (codes "BTC/USD") week history full false none

evaluate-slots_example :
    (slots (evaluate (codes "BTC/USD") week history full false none).results ≡ one_to_seven)
    × ((evaluate (codes "BTC/USD") week history full false none).score
        ≤ (evaluate (codes "BTC/USD") week history full false none).denom)
    × ((evaluate (codes "BTC/USD") week history full false none).denom ≤ 7)
evaluate-slots_example = evaluate-slots (codes "BTC/USD") week history full false none

evaluate-AreMissed_example :
    AreMissed
      (evaluate (codes "BTC/USD") week history full false none).results
      (evaluate (codes "BTC/USD") week history full false none).gap
evaluate-AreMissed_example = evaluate-AreMissed (codes "BTC/USD") week history full false none

evaluate_buy_example :
    (((evaluate (codes "BTC/USD") week history full false none).status ≡ buy) ↔ (
      (evaluate (codes "BTC/USD") week history full false none).required
      ≤ (evaluate (codes "BTC/USD") week history full false none).score))
    × (2 ≤ (evaluate (codes "BTC/USD") week history full false none).required)
    × (10 * (evaluate (codes "BTC/USD") week history full false none).denom
        ≤ 14 * (evaluate (codes "BTC/USD") week history full false none).required + 7)
evaluate_buy_example = evaluate_buy (codes "BTC/USD") week history full false none
