-- ===== src/Vol/Tests.antt =====
-- The theorems on the volatility distances applied to a small roster.
use oracle_deepfield.Base.{ℕ, ◌≡◌, refl, true, some, List, [], ◌∷◌, ◌⊎◌}
use oracle_deepfield.Base.Names.{codes}
use oracle_deepfield.Num.{of_ℕ}
use oracle_deepfield.Num.Fixed.{Fixed, fixed, fixed-IsOrdered}
use oracle_deepfield.Vol.Ruling.{Day, LiqConfig, resolve, sl_floor}
use oracle_deepfield.Vol.Table.{Inputs, build_row}
use oracle_deepfield.Vol.Bounds.{
  HasBounds, IsBounded, IsSourced, ceiling_at, build_row-IsBounded, resolve-gate_a,
  build_row-IsSourced,
}

abbrev day : ℕ → ℕ → ℕ → Day Fixed
day h l c = record { h = some (of_ℕ h); l = some (of_ℕ l); c = some (of_ℕ c) }

abbrev two_weeks : List (Day Fixed)
two_weeks =
    day 103 99 100
    ∷ day 104 98 101
    ∷ day 105 99 103
    ∷ day 104 100 102
    ∷ day 103 97 98
    ∷ day 101 96 99
    ∷ day 102 98 101
    ∷ day 106 100 105
    ∷ day 107 103 104
    ∷ day 105 101 102
    ∷ day 104 99 100
    ∷ day 103 98 102
    ∷ day 105 100 104
    ∷ day 106 102 103
    ∷ day 104 99 100
    ∷ []

abbrev liq : LiqConfig Fixed
liq = record { clamp_on = true; safety_frac = fixed.dec 70 2 }

abbrev inputs : Inputs Fixed
inputs = record {
  cfg = liq;
  fallback_tp = (codes "ETH/USD", of_ℕ 3) ∷ [];
  per_pair_leverage = (codes "BTC/USD", of_ℕ 10) ∷ [];
  candles = λ s. two_weeks;
}

fixed-HasBounds : HasBounds Fixed
fixed-HasBounds = record {
  tp_order = refl;
  sl_order = refl;
  rung_order = refl;
  numbers = (refl, refl, refl, refl, refl, refl);
  legacy_tp = (refl, refl);
  legacy_sl = (refl, refl);
  legacy_rung = (refl, refl);
}

build_row-IsBounded_example : IsBounded (build_row inputs (codes "BTC/USD")).dist
build_row-IsBounded_example =
    build_row-IsBounded fixed-IsOrdered fixed-HasBounds inputs (codes "BTC/USD")

resolve-gate_a_example :
    (((resolve liq (of_ℕ 4) (some (of_ℕ 10))).sl_pct ≡ sl_floor)
      ⊎ (fixed.le (resolve liq (of_ℕ 4) (some (of_ℕ 10))).sl_pct (ceiling_at liq (of_ℕ 10)) ≡ true))
    × (fixed.le
          (resolve liq (of_ℕ 4) (some (of_ℕ 10))).sl_pct
          (resolve liq (of_ℕ 4) (some (of_ℕ 10))).sl_raw_pct
        ≡ true)
    × ((resolve liq (of_ℕ 4) (some (of_ℕ 10))).liq_clamped
        ≡ fixed.lt (ceiling_at liq (of_ℕ 10)) (resolve liq (of_ℕ 4) (some (of_ℕ 10))).sl_raw_pct)
unfolding oracle_deepfield.Num.Fixed.quotient
resolve-gate_a_example =
    resolve-gate_a fixed-IsOrdered fixed-HasBounds liq (of_ℕ 4) (of_ℕ 10) refl refl refl refl

build_row-IsSourced_example :
    IsSourced inputs (codes "BTC/USD") (build_row inputs (codes "BTC/USD"))
build_row-IsSourced_example = build_row-IsSourced inputs (codes "BTC/USD")
