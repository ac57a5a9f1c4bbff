-- ===== src/Executor/Bucket.antt =====
-- The respend bucket of deepfield/executor.py: `_respend_tokens_now`, `_respend_budget_ok` with the
-- debit it hands out, `_respend_credit` and `_respend_would_refuse`. The stored text is a record
-- where it was ever written; `time.time()` is a number of the arithmetic.
pub mod Capped
pub mod Pregate
use oracle_deepfield.Base.{ℕ, Bool, true, false, Option, none, some, if◌then◌else◌}
use oracle_deepfield.Num.{Float, nought, of_ℕ, fmax, fmin}
use oracle_deepfield.Executor.Sizing.{PairInfo, min_volume, at_least_one}

-- RESPEND_BUDGET_USD_PER_HR and RESPEND_BURST_USD
pub record Pace (F : Type 0) : Type 0 where
  pub budget_usd_per_hr : F
  pub burst_usd : F

-- meta['respend_bucket']
pub record Bucket (F : Type 0) : Type 0 where
  pub tokens : F
  pub updated : F

module _ {F : Type 0} ⦃fl : Float F⦄ where
  open fl use {add, sub, mul, div, lt, le, eq, dec}

  -- a burst of 0 stands for the rate
  abbrev pub burst_of : Pace F → F
  burst_of p = if eq p.burst_usd nought then p.budget_usd_per_hr else p.burst_usd

  abbrev pub accrued : F → F → F → F → F → F
  accrued rate burst now tokens updated =
      fmin burst (add tokens (div (mul (fmax nought (sub now updated)) rate) (of_ℕ 3600)))

  -- `_respend_tokens_now`
  unfoldable pub respend_tokens_now : F → F → F → Option (Bucket F) → F
  respend_tokens_now rate burst now none = accrued rate burst now burst now
  respend_tokens_now rate burst now (some b) = accrued rate burst now b.tokens b.updated

  -- `_respend_budget_ok`, without the debit: a refusal writes the accrued level back.
  unfoldable pub respend_budget_ok : Pace F → F → F → Option (Bucket F) → Bool × Option (Bucket F)
  unfolding respend_tokens_now
  respend_budget_ok p notional now b =
      let tokens = respend_tokens_now p.budget_usd_per_hr (burst_of p) now b in
      if le p.budget_usd_per_hr nought
      then (true, b)
      else if lt (add tokens (dec 1 9)) notional
      then (false, some (record { tokens = tokens; updated = now }))
      else (true, b)

  -- `_debit`, called at the later time
  unfoldable pub debit : Pace F → F → F → Option (Bucket F) → Option (Bucket F)
  unfolding respend_tokens_now
  debit p notional later b =
      let t = respend_tokens_now p.budget_usd_per_hr (burst_of p) later b in
      if le p.budget_usd_per_hr nought
      then b
      else some (record { tokens = fmax nought (sub t notional); updated = later })

  -- `_respend_credit`
  unfoldable pub respend_credit : Pace F → F → F → Option (Bucket F) → Option (Bucket F)
  unfolding respend_tokens_now
  respend_credit p notional now b =
      let tokens = respend_tokens_now p.budget_usd_per_hr (burst_of p) now b in
      if le p.budget_usd_per_hr nought
      then b
      else if le notional nought
      then b
      else some (record { tokens = fmin (burst_of p) (add tokens notional); updated = now })

  -- `_respend_would_refuse`
  unfoldable pub respend_would_refuse :
      Pace F → PairInfo F → F → Option F → F → Option (Bucket F) → Bool
  unfolding respend_tokens_now min_volume
  respend_would_refuse p info size_mult none now b = false
  respend_would_refuse p info size_mult (some price) now b =
      let vol = min_volume info.ordermin info.costmin price info.lot_decimals in
      let tokens = respend_tokens_now p.budget_usd_per_hr (burst_of p) now b in
      if le p.budget_usd_per_hr nought
      then false
      else if le price nought
      then false
      else if le vol nought
      then false
      else lt (add tokens (dec 1 9)) (mul (mul vol price) (at_least_one size_mult))
