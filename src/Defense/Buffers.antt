-- ===== src/Defense/Buffers.antt =====
-- `compute`, `tier_for`, `step`, `stress_buffer`, `max_survivable_leverage` and `should_trim` of
-- deepfield/defense.py.
use oracle_deepfield.Base.{
  ℕ, Bool, true, false, not, ◌&&◌, ◌||◌, Option, none, some, List, [], ◌∷◌, if◌then◌else◌,
}
use oracle_deepfield.Num.{Float, nought, of_ℕ}

pub data Tier : Type 0 where
  nominal caution critical unknown : Tier

-- The dictionary of `compute`.
pub record Buffers (F : Type 0) : Type 0 where
  pub buffer_call_pct : F
  pub buffer_liq_pct : F
  pub eff_leverage : F

-- The persisted dictionary of `step`; a missing key is `none`.
pub record Memo (F : Type 0) : Type 0 where
  pub tier : Option Tier
  pub since : Option ℕ
  pub alert_buffer : Option F

pub data Event (F : Type 0) : Type 0 where
  transition : Option Tier → Tier → Option F → Event F
  recritical : F → Event F

abbrev pub same_tier : Tier → Option Tier → Bool
same_tier t none = false
same_tier nominal (some nominal) = true
same_tier caution (some caution) = true
same_tier critical (some critical) = true
same_tier unknown (some unknown) = true
same_tier t (some u) = false

abbrev pub or_now : Option ℕ → ℕ → ℕ
or_now none now = now
or_now (some t) now = t

abbrev pub or_unknown : Option Tier → Tier
or_unknown none = unknown
or_unknown (some t) = t

module _ {F : Type 0} where
  -- `prev or {}`
  abbrev pub recalled : Option (Memo F) → Memo F
  recalled none = record { tier = none; since = none; alert_buffer = none }
  recalled (some m) = m

module _ {F : Type 0} ⦃fl : Float F⦄ where
  open fl use {add, sub, mul, div, lt, le, dec, inf, is_inf, is_nan}

  abbrev pub call_ml : F
  call_ml = dec 80 2

  abbrev pub liq_ml : F
  liq_ml = dec 40 2

  abbrev pub recritical_decay_pct : F
  recritical_decay_pct = dec 20 1

  -- The two buffers and the leverage of a book with notional v.
  unfoldable pub buffers_of : F → F → F → Buffers F
  buffers_of e m v =
      if le v nought
      then record { buffer_call_pct = inf; buffer_liq_pct = inf; eff_leverage = nought }
      else record {
        buffer_call_pct = mul (div (sub e (mul call_ml m)) v) (of_ℕ 100);
        buffer_liq_pct = mul (div (sub e (mul liq_ml m)) v) (of_ℕ 100);
        eff_leverage = div v e;
      }

  -- `compute`: a notional that is no number counts as flat.
  unfoldable pub compute : Option F → Option F → Option F → Option (Buffers F)
  unfolding buffers_of
  compute none m v = none
  compute (some e) none v = none
  compute (some e) (some m) none =
      if not (lt nought e) then none else if lt m nought then none else some (buffers_of e m nought)
  compute (some e) (some m) (some v) =
      if not (lt nought e) then none else if lt m nought then none else some (buffers_of e m v)

  -- `tier_for`
  unfoldable pub tier_for : Option F → F → F → Tier
  tier_for none nom crit = unknown
  tier_for (some b) nom crit =
      if is_nan b
      then unknown
      else if le nom b
      then nominal
      else if le crit b
      then caution
      else critical

  -- The buffer that `step` tracks: an infinite one is no number to track.
  unfoldable pub tracked : Option (Buffers F) → Option F
  tracked none = none
  tracked (some c) = if is_inf c.buffer_liq_pct then none else some c.buffer_liq_pct

  -- The buffer has decayed far enough below the last one alerted.
  unfoldable pub decayed : Option F → F → Bool
  decayed none b = false
  decayed (some last) b = le recritical_decay_pct (sub last b)

  -- An unchanged tier: only CRITICAL pages again, and only on further decay.
  unfoldable pub hold : Memo F → Option F → Tier → ℕ → Memo F × List (Event F)
  unfolding decayed
  hold prev none t now = (
    record {
      tier = some t;
      since = some (or_now prev.since now);
      alert_buffer = prev.alert_buffer;
    },
    [],
  )
  hold prev (some b) t now =
      let same : Memo F = record {
        tier = some t;
        since = some (or_now prev.since now);
        alert_buffer = prev.alert_buffer;
      } in
      if same_tier t (some critical) && decayed prev.alert_buffer b
      then (record same { alert_buffer = some b }, recritical b ∷ [])
      else (same, [])

  -- A known tier.
  unfoldable pub observe : Memo F → Option F → Tier → ℕ → Memo F × List (Event F)
  unfolding hold
  observe prev b t now =
      if not (same_tier t prev.tier)
      then (
        record { tier = some t; since = some now; alert_buffer = b },
        transition prev.tier t b ∷ [],
      )
      else hold prev b t now

  -- `step`
  unfoldable pub step : Option (Memo F) → Option (Buffers F) → Tier → ℕ → Memo F × List (Event F)
  unfolding observe tracked
  step prev computed unknown now =
      let m = recalled prev in (record m { tier = some (or_unknown m.tier) }, [])
  step prev computed nominal now = observe (recalled prev) (tracked computed) nominal now
  step prev computed caution now = observe (recalled prev) (tracked computed) caution now
  step prev computed critical now = observe (recalled prev) (tracked computed) critical now

  -- `stress_buffer`
  unfoldable pub stress_buffer : Option F → Option F → Option F → Option F → Option F
  stress_buffer (some e) (some m) (some v) (some d) =
      if not (lt nought e) || lt m nought || lt d nought
      then none
      else if le v nought
      then some inf
      else if le (of_ℕ 1) d
      then none
      else some
          (mul (div (sub (sub e (mul v d)) (mul liq_ml m)) (mul v (sub (of_ℕ 1) d))) (of_ℕ 100))
  stress_buffer _ _ _ _ = none

  -- `max_survivable_leverage`
  unfoldable pub max_survivable_leverage : Option F → Option F → Option F → Option F
  max_survivable_leverage (some m) (some v) (some d) =
      let denom = add d (div (mul liq_ml m) v) in
      if le v nought
      then some inf
      else if lt m nought || lt d nought
      then none
      else if le denom nought
      then some inf
      else some (div (of_ℕ 1) denom)
  max_survivable_leverage _ _ _ = none

  -- `should_trim`
  unfoldable pub should_trim : Option F → F → Bool
  should_trim none trigger = false
  should_trim (some b) trigger = if is_nan b || is_inf b then false else lt b trigger
