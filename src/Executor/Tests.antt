-- ===== src/Executor/Tests.antt =====
-- The theorems on the executor's gates and entries applied to a small account.
use oracle_deepfield.Base.{
  ℕ, ◌≡◌, refl, Bool, true, false, not, Option, none, some, List, [], ◌∷◌, any_of, All, arith, ◌≢◌,
  ◌⊎◌, ◌++◌,
}
use mathlib.Core.List.{Perm}
use oracle_deepfield.Base.Names.{codes}
use oracle_deepfield.Num.{Float, nought, of_ℕ}
use oracle_deepfield.Num.Fixed.{Fixed, num, infinity, fixed, fixed-IsOrdered}
use oracle_deepfield.Executor.Rails.{rails_ok, rails_detail}
use oracle_deepfield.Executor.Rails.Verdict.{
  rails_detail-rails_ok, rails_detail-IsPercent, IsPercent,
}
use oracle_deepfield.Executor.Sizing.{PairInfo, SizeConfig, Sizing, size_min}
use oracle_deepfield.Executor.Bucket.{Bucket, respend_would_refuse, respend_budget_ok}
use oracle_deepfield.Executor.Bucket.Capped.{
  Use, checks, debits, refunds, use_all, IsCapped, SubtractsDown, use_all-IsCapped,
}
use oracle_deepfield.Executor.Gates.{service_order}
use oracle_deepfield.Executor.Gates.Order.{IsServed, service_order-IsServed}
use oracle_deepfield.Executor.Entry.{place_entry}
use oracle_deepfield.Executor.Entry.Gated.{IsCleared, place_entry-IsCleared}
use oracle_deepfield.Executor.Entry.Recorded.{IsPlacement, place_entry-IsPlacement}
use oracle_deepfield.Executor.Ledger.{has_pending_entry, live}
use oracle_deepfield.Executor.Rung.{Ladder, Chain, place_ladder_rung}
use oracle_deepfield.Executor.Rung.Placed.{IsRungPrice, place_ladder_rung-IsRungPrice}
use oracle_deepfield.Executor.Chains.{Sweep, Pass, seed_one, is_held, next_of, would_refuse}
use oracle_deepfield.Executor.Chains.Quiet.{seed_one-fresh}
use oracle_deepfield.Executor.Venue.{Request}
use oracle_deepfield.Executor.Samples.{eth, limits, pace, flat_sizes, config, reads, world, session}

-- A pair with a leverage, a stop and a size is entered: the row gets id 3.
entered : (place_entry config reads eth (of_ℕ 100) none false world).0 ≡ some 3
unfolding place_entry oracle_deepfield.Base.Int.div_ℕ oracle_deepfield.Base.Int.◌*ℤ◌
    oracle_deepfield.Base.Int.◌-ℤ◌ oracle_deepfield.Num.Fixed.quotient
    oracle_deepfield.Num.Fixed.ceiling
entered = refl

place_entry-IsCleared_example : IsCleared config reads world eth
place_entry-IsCleared_example =
    place_entry-IsCleared config reads eth (of_ℕ 100) none false world 3 entered

place_entry-IsPlacement_example :
    IsPlacement reads world (place_entry config reads eth (of_ℕ 100) none true world)
unfolding oracle_deepfield.Executor.Rails.armed
place_entry-IsPlacement_example =
    place_entry-IsPlacement config reads eth (of_ℕ 100) none true world refl

rails_detail-rails_ok_example :
    (rails_ok limits session (some (of_ℕ 150))).0
    ≡ not (any_of (λ r. r.blocking) (rails_detail limits session (some (of_ℕ 150))).rails)
rails_detail-rails_ok_example = rails_detail-rails_ok limits session (some (of_ℕ 150)) refl refl

rails_detail-IsPercent_example :
    All (λ r. IsPercent r.pct) (rails_detail limits session (some (of_ℕ 200))).rails
rails_detail-IsPercent_example =
    rails_detail-IsPercent fixed-IsOrdered refl limits session (some (of_ℕ 200))

service_order-IsServed_example :
    Perm (service_order (eth ∷ []) (codes "ADA/USD" ∷ eth ∷ [])) (codes "ADA/USD" ∷ eth ∷ [])
    × IsServed (eth ∷ []) (service_order (eth ∷ []) (codes "ADA/USD" ∷ eth ∷ []))
service_order-IsServed_example = service_order-IsServed (eth ∷ []) (codes "ADA/USD" ∷ eth ∷ [])

fixed-SubtractsDown : SubtractsDown Fixed
unfolding oracle_deepfield.Base.Int.◌-ℤ◌
fixed-SubtractsDown (num a) (num b) h n = ground arith
fixed-SubtractsDown infinity (num b) h n = refl
fixed-SubtractsDown _ _ h n = ground arith

abbrev day_of_uses : List (Use Fixed)
day_of_uses =
    debits (of_ℕ 100) (of_ℕ 40) ∷ checks (of_ℕ 200) (of_ℕ 50) ∷ refunds (of_ℕ 300) (of_ℕ 500) ∷ []

use_all-IsCapped_example : IsCapped pace (use_all pace day_of_uses none)
use_all-IsCapped_example =
    use_all-IsCapped fixed-IsOrdered fixed-SubtractsDown pace refl day_of_uses none
      (refl, (tt, (tt, tt))) tt

-- Two dollars in the bucket, and a seed of two dollars and a half.
abbrev poor : Bucket Fixed
poor = record { tokens = of_ℕ 2; updated = of_ℕ 2000 }

abbrev seed_size : Sizing Fixed
seed_size = record {
  volume = fixed.dec 2 2;
  notional = fixed.dec 25 1;
  margin = fixed.dec 5 1;
  risk_usd = of_ℕ 0;
  actual_risk = fixed.dec 1 1;
  capped = false;
  floored_to_min = true;
  conviction_mult = of_ℕ 1;
  size_mult = of_ℕ 1;
}

abbrev ladder : Ladder Fixed
ladder = record {
  continuous = true;
  stop_buffer = of_ℕ 0;
  stack_floor_pct = of_ℕ 200;
  stored = record { tp_flatten_active = false; stress_state = none; web_live = none };
  clock = of_ℕ 2000;
  paused_since = none;
  live_last = some (of_ℕ 97);
}

abbrev chain : Chain Fixed
chain = record {
  symbol = eth;
  pair = codes "ETH/USD:BTNL";
  leverage = of_ℕ 5;
  stop = of_ℕ 92;
  filled_price = of_ℕ 100;
  score = none;
  required = none;
}

place_ladder_rung-IsRungPrice_example :
    let v = place_ladder_rung config ladder reads chain world in
    ((v.sent ≡ world.sent) × (v.orders ≡ world.orders))
    ⊎ ((p : Fixed) × ((q : Request Fixed) × ((v.sent ≡ world.sent ++ q ∷ [])
            × ((q.price ≡ some p) × IsRungPrice config ladder reads chain world p))))
place_ladder_rung-IsRungPrice_example =
    place_ladder_rung-IsRungPrice fixed-IsOrdered config ladder reads chain world

abbrev sweep : Sweep Fixed
sweep = record {
  mode = live;
  sim_attached = false;
  priority = [];
  seed_pairs = eth ∷ [];
  monotonic = of_ℕ 1000;
  reads = λ s. reads;
  ladder = λ s. ladder;
  local_price = λ s. some (of_ℕ 97);
}

abbrev start : Pass Fixed
start = record { world = record world { orders = [] }; seed_next = []; reladder_next = [] }

seed_one-fresh_example :
    (seed_one config sweep eth start ≡ start)
    ⊎ ((has_pending_entry start.world.orders eth live ≡ false)
        × ((any_of (is_held live eth) start.world.orders ≡ false)
            × ((fixed.lt (of_ℕ 1000) (next_of start.seed_next eth) ≡ false)
                × (would_refuse config sweep eth (some (of_ℕ 97)) start.world ≡ false))))
seed_one-fresh_example = seed_one-fresh config sweep eth start

-- With a multiple of one and a half on a grid of whole lots, the pre-gate skips a seed that the
-- check would fund: SIZE_MULT is rounded down in the order and not in the bound.
abbrev whole_lots : PairInfo Fixed
whole_lots = record { ordermin = of_ℕ 1; costmin = of_ℕ 0; lot_decimals = some 0 }

abbrev half_more : SizeConfig Fixed
half_more = record flat_sizes { size_mult = fixed.dec 15 1 }

abbrev twelve : Bucket Fixed
twelve = record { tokens = of_ℕ 12; updated = of_ℕ 2000 }

pregate_skips :
    respend_would_refuse pace whole_lots (fixed.dec 15 1) (some (of_ℕ 10)) (of_ℕ 2000) (some twelve)
    ≡ true
unfolding respend_would_refuse oracle_deepfield.Num.Fixed.quotient
    oracle_deepfield.Num.Fixed.ceiling oracle_deepfield.Base.Int.◌+ℤ◌
pregate_skips = refl

check_funds :
    elim (size_min half_more whole_lots (of_ℕ 10) (of_ℕ 9) (of_ℕ 5) none) [
      | none ↦ false
      | some sizing ↦ (respend_budget_ok pace sizing.notional (of_ℕ 2000) (some twelve)).0
    ]
    ≡ true
unfolding respend_budget_ok size_min oracle_deepfield.Num.Fixed.quotient
    oracle_deepfield.Num.Fixed.ceiling oracle_deepfield.Base.Int.◌+ℤ◌
check_funds = refl
