-- ===== src/Defense/Tests.antt =====
-- The theorems on the liquidation buffers applied to concrete readings and series.
use oracle_deepfield.Base.{ℕ, ◌≡◌, refl, true, Option, none, some, List, [], ◌∷◌}
use oracle_deepfield.Num.{nought, of_ℕ}
use oracle_deepfield.Num.Fixed.{Fixed, fixed, fixed-IsOrdered, fixed-HasUnits}
use oracle_deepfield.Defense.Buffers.{Tier, nominal, caution, critical, Buffers, should_trim}
use oracle_deepfield.Defense.Basket.{worst_move}
use oracle_deepfield.Defense.Escalation.{Linked, Reading, watch, known_tier, IsQuiet, watch-Linked}

abbrev pct : ℕ → Fixed
pct n = of_ℕ n

abbrev buffers_at : ℕ → Buffers Fixed
buffers_at n = record { buffer_call_pct = pct n; buffer_liq_pct = pct n; eff_leverage = pct 2 }

abbrev reading : ℕ → Tier → ℕ → Reading Fixed
reading n tier now = record { computed = some (buffers_at n); tier = tier; now = now }

abbrev readings : List (Reading Fixed)
readings =
    reading 40 nominal 100
    ∷ reading 20 caution 200
    ∷ reading 9 critical 300
    ∷ reading 6 critical 400
    ∷ []

abbrev series : List (Option Fixed × List (Option Fixed))
series =
    (some (pct 1), some (pct 100) ∷ some (pct 120) ∷ some (pct 90) ∷ [])
    ∷ (some (pct 3), some (pct 50) ∷ none ∷ some (pct 40) ∷ [])
    ∷ []

abbrev index : List Fixed
index = pct 100 ∷ pct 80 ∷ pct 120 ∷ pct 90 ∷ []

worst_one_bar_fall : worst_move index 1 ≡ fixed.dec 25 2
unfolding worst_move oracle_deepfield.Num.Fixed.quotient
worst_one_bar_fall = refl

watch-Linked_example :
    Linked
      (known_tier {F = Fixed} none)
      (watch none readings).1
      (known_tier (watch none readings).0)
    × IsQuiet none readings none 500
watch-Linked_example = watch-Linked none readings none 500

trims_below_eight : should_trim (some (pct 6)) (pct 8) ≡ true
unfolding should_trim
trims_below_eight = refl
