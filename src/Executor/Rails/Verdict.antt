-- ===== src/Executor/Rails/Verdict.antt =====
-- The verdict of `rails_ok` against the rails that `rails_detail` draws, and the bounds of what is
-- drawn.
use oracle_deepfield.Base.{
  Bool, true, false, not, ◌||◌, ◌≡◌, Option, none, some, arith, any_of, All, if_keeps, leb,
}
use oracle_deepfield.Num.{Float, neg, nought, of_ℕ, fmax, fmin}
use oracle_deepfield.Num.Laws.{IsOrdered}
use oracle_deepfield.Num.Clamps.{fmin-le, fmax-le}
use oracle_deepfield.Executor.Rails.{
  Limits, Session, RailName, rails_ok, rails_detail, tp_target, pct_of, rail, kill_switch_rail,
  positions_rail, daily_rail, weekly_rail, kill_floor, below_floor, is_blind, committed, loss_rail,
  daily_pnl, weekly_pnl,
}

module _ {F : Type 0} ⦃fl : Float F⦄ where
  open fl use {abs, lt, le, eq}

  -- With no HALT file and the rails enabled, trading is allowed exactly where none of the rails
  -- that the console draws is blocking: the verdict of the money path and the picture agree.
  pub rails_detail-rails_ok :
      (l : Limits F) (s : Session F) (equity : Option F)
      → s.halt_file ≡ false
      → l.rails_enabled ≡ true
      → (rails_ok l s equity).0 ≡ not (any_of (λ r. r.blocking) (rails_detail l s equity).rails)
  unfolding rails_ok rails_detail rail
  rails_detail-rails_ok l s none h e = ground arith
  rails_detail-rails_ok l s (some x) h e = ground arith

  -- Between 0 and 100.
  abbrev pub IsPercent : Option F → Type 0
  IsPercent none = Unit
  IsPercent (some x) = (le nought x ≡ true) × (le x (of_ℕ 100) ≡ true)

  clamped-IsPercent :
      IsOrdered F
      → lt nought (of_ℕ 100) ≡ true
      → (x : F) → IsPercent (some (fmax nought (fmin (of_ℕ 100) x)))
  clamped-IsPercent o h x =
      let numbers = o.lt_numbers nought (of_ℕ 100) h in
      (
        fmax-le o nought _ numbers.0,
        if_keeps (λ y. le y (of_ℕ 100) ≡ true) (lt nought (fmin (of_ℕ 100) x)) _ _
            (fmin-le o (of_ℕ 100) x numbers.1) (o.lt→le nought (of_ℕ 100) h),
      )

  pct_of-IsPercent :
      IsOrdered F → lt nought (of_ℕ 100) ≡ true → (head limit : F) → IsPercent (pct_of head limit)
  unfolding pct_of
  pct_of-IsPercent o h head limit =
      if_keeps IsPercent (eq limit nought) _ _ tt
        (if_keeps IsPercent (eq (abs limit) nought) _ _ tt (clamped-IsPercent o h _))

  rail-IsPercent :
      IsOrdered F
      → lt nought (of_ℕ 100) ≡ true
      → (name : RailName) (used limit : Option F) (blocking invert : Bool)
      → IsPercent (rail name used limit blocking invert).pct
  unfolding rail
  rail-IsPercent o h name none limit blocking invert = tt
  rail-IsPercent o h name (some used) none blocking invert = tt
  rail-IsPercent o h name (some used) (some limit) blocking invert = pct_of-IsPercent o h _ limit

  loss_rail-IsPercent :
      IsOrdered F
      → lt nought (of_ℕ 100) ≡ true
      → (name : RailName) (pl cap : F) → IsPercent (loss_rail name pl cap).pct
  loss_rail-IsPercent o h name pl cap =
      rail-IsPercent o h name (some pl) (some (neg cap)) (le pl (neg cap)) true

  -- Every percentage that the console draws of a rail lies between 0 and 100, whatever the equity,
  -- the ledger and the limits are.
  pub rails_detail-IsPercent :
      IsOrdered F
      → lt nought (of_ℕ 100) ≡ true
      → (l : Limits F) (s : Session F) (equity : Option F)
      → All (λ r. IsPercent r.pct) (rails_detail l s equity).rails
  unfolding rails_detail
  rails_detail-IsPercent o h l s equity =
      if_keeps (All (λ r. IsPercent r.pct)) (s.halt_file || not l.rails_enabled) _ _ tt (
        rail-IsPercent o h kill_switch_rail equity (kill_floor l s)
            (is_blind s equity || below_floor (kill_floor l s) equity) true,
        (
          rail-IsPercent o h positions_rail (some (of_ℕ (committed s)))
              (some (of_ℕ l.max_open_positions)) (leb l.max_open_positions (committed s)) false,
          (
            loss_rail-IsPercent o h daily_rail (daily_pnl s) l.daily_loss_limit_usd,
            (loss_rail-IsPercent o h weekly_rail (weekly_pnl s) l.weekly_loss_limit_usd, tt),
          ),
        ),
      )

  -- With the floor at the baseline, the target of the whole book is never below a baseline that is
  -- a number, wherever the trough lies.
  pub tp_target_floor :
      IsOrdered F
      → (tp_pct baseline trough : F) → eq baseline baseline ≡ true
      → le baseline (tp_target tp_pct true baseline trough) ≡ true
  unfolding tp_target
  tp_target_floor o tp_pct baseline trough e = fmax-le o baseline _ e
