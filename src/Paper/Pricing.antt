-- ===== src/Paper/Pricing.antt =====
-- At which price, and on what evidence, the matching engine of deepfield/paper_broker.py executes
-- a resting order: the no-look-ahead rule, and fills that never flatter the book.
use oracle_deepfield.Base.{◌<◌, ◌≡◌, true, arith, if◌then◌else◌}
use oracle_deepfield.Num.{Float}
use oracle_deepfield.Paper.Types.{limit, stop, market, other_type, Order, Candle, Env}
use oracle_deepfield.Paper.Book.{is_sell}
use oracle_deepfield.Paper.Settle.{touched_below, touched_above, execution}

module _ {F : Type 0} ⦃fl : Float F⦄ where
  open fl use {add, sub, eq, le, lt}

  -- A bar that opened before the order rested shows its high and low to nobody: whatever they are,
  -- the order is executed, or not, in the same way and at the same price.
  pub execution_no_look_ahead :
      (env : Env F) (b : Candle F) (r : Order F) (hi lo : F)
      → b.ts < r.opentm
      → execution env (record b { hi = hi; lo = lo }) r ≡ execution env b r
  unfolding execution touched_below touched_above
  execution_no_look_ahead env b r hi lo h = ground arith

  -- The price b or worse for a seller: at most b.
  abbrev pub AtMost : F → F → Type 0
  AtMost a b = le a b ≡ true

  -- What an execution at `price` is worth against the order r and the last price of the bar b.
  abbrev pub NotFlattering : Candle F → Order F → F → Type 0
  NotFlattering b r price = elim r.ordertype [
    | limit ↦ price ≡ r.price
    | other_type ↦ price ≡ r.price
    | stop ↦ AtMost price r.price × AtMost price b.last
    | market ↦ if is_sell r.side then AtMost price b.last else AtMost b.last price
  ]
