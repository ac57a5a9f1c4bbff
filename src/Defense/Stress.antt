-- ===== src/Defense/Stress.antt =====
-- The stress figures, the tiers and the trim trigger of deepfield/defense.py against each other.
use oracle_deepfield.Base.{ℕ, ◌≤◌, ◌≡◌, refl, true, false, Option, none, some, arith}
use oracle_deepfield.Num.{Float, nought, of_ℕ}
use oracle_deepfield.Num.Laws.{IsOrdered, HasUnits}
use oracle_deepfield.Defense.Buffers.{
  Tier, nominal, caution, critical, unknown, Buffers, buffers_of, compute, tier_for, stress_buffer,
  should_trim,
}

-- How bad a tier is; UNKNOWN is not compared.
abbrev pub severity : Tier → ℕ
severity nominal = 0
severity caution = 1
severity critical = 2
severity unknown = 3

-- The liquidation buffer of a result.
abbrev pub liq_buffer : {F : Type 0} → Option (Buffers F) → Option F
liq_buffer none = none
liq_buffer (some c) = some c.buffer_liq_pct

module _ {F : Type 0} ⦃fl : Float F⦄ where
  open fl use {add, sub, mul, div, lt, le, eq, is_nan, is_inf}

  module _ (o : IsOrdered F) where
    -- A larger buffer is never in a worse tier, for any two thresholds in order.
    pub tier_for_mono :
        (b c nom crit : F)
        → is_nan b ≡ false
        → is_nan c ≡ false
        → le b c ≡ true
        → severity (tier_for (some c) nom crit) ≤ severity (tier_for (some b) nom crit)
    unfolding tier_for
    tier_for_mono b c nom crit nb nc h = ground (arith, o.le_trans nom b c, o.le_trans crit b c)

    -- With the trigger at most the critical line, and that at most the nominal one, the reverse gear
    -- trims only in the tier CRITICAL.
    pub should_trim_critical :
        (b : Option F) (trigger nom crit : F)
        → le trigger crit ≡ true
        → le crit nom ≡ true
        → should_trim b trigger ≡ true
        → tier_for b nom crit ≡ critical
    unfolding should_trim tier_for
    should_trim_critical none trigger nom crit p q h = cc
    should_trim_critical (some b) trigger nom crit p q h = ground (
      arith,
      o.lt-le_trans b trigger crit,
      o.lt-le_trans b crit nom,
      o.lt→not-le b crit,
      o.lt→not-le b nom,
    )

    -- A stress of 0 is the present: the stressed buffer is the liquidation buffer that `compute`
    -- gives, unusable inputs and the flat book included. The notional is finite (0 times it is 0).
    pub stress_buffer-zero :
        HasUnits F
        → (e m : Option F) (v : F) → mul v nought ≡ nought
        → stress_buffer e m (some v) (some nought) ≡ liq_buffer (compute e m (some v))
    unfolding stress_buffer compute buffers_of
    stress_buffer-zero u none m v fin = refl
    stress_buffer-zero u (some e) none v fin = refl
    stress_buffer-zero u (some e) (some m) v fin =
        rw (fin, u.sub_zero e, u.sub_zero (of_ℕ 1), u.mul_one v, u.not_unit, o.lt_irrefl nought)
          (ground arith)
