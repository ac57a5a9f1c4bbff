-- ===== src/Executor/Bucket/Pregate.antt =====
-- The pre-gate of the respend bucket against the check that decides.
use oracle_deepfield.Base.{true, false, ◌≡◌, Option, some, arith}
use oracle_deepfield.Num.{Float}
use oracle_deepfield.Num.Laws.{IsOrdered}
use oracle_deepfield.Executor.Sizing.{PairInfo, Sizing, at_least_one, min_volume}
use oracle_deepfield.Executor.Bucket.{
  Pace, Bucket, burst_of, respend_tokens_now, respend_budget_ok, respend_would_refuse,
}

module _ {F : Type 0} ⦃fl : Float F⦄ where
  open fl use {add, mul, lt, le, dec}

  -- Where the pre-gate skips an order, the check that decides would refuse every order at that
  -- instant whose notional is at least the smallest placeable volume times the price times the size
  -- multiple.
  pub respend_would_refuse-respend_budget_ok :
      IsOrdered F
      → (p : Pace F) (info : PairInfo F) (size_mult price now notional : F) (b : Option (Bucket F))
      → respend_would_refuse p info size_mult (some price) now b ≡ true
      → le
          (mul
            (mul (min_volume info.ordermin info.costmin price info.lot_decimals) price)
            (at_least_one size_mult))
          notional
        ≡ true
      → (respend_budget_ok p notional now b).0 ≡ false
  unfolding respend_would_refuse respend_budget_ok
  respend_would_refuse-respend_budget_ok o p info size_mult price now notional b h k = ground (
    arith,
    o.lt-le_trans (add (respend_tokens_now p.budget_usd_per_hr (burst_of p) now b) (dec 1 9))
        (mul (mul (min_volume info.ordermin info.costmin price info.lot_decimals) price)
          (at_least_one size_mult))
        notional,
  )
