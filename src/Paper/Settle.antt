-- ===== src/Paper/Settle.antt =====
-- The matching engine of deepfield/paper_broker.py: `_settle_one` and the loop of `_settle`.
use oracle_deepfield.Base.{
  Bool, true, false, not, ◌&&◌, ◌||◌, Option, none, some, List, [], ◌∷◌, ◌++◌, leb, keep,
  if◌then◌else◌,
}
use oracle_deepfield.Num.{Float, of_ℕ, fmin}
use oracle_deepfield.Paper.Types.{
  OrderType, limit, stop, market, other_type, Status, open_, closed, canceled, expired, Reason,
  market_order, stop_triggered, limit_filled, Order, Exchange, Candle, Env,
}
use oracle_deepfield.Paper.Book.{is_sell, is_buy, bar, fill}

abbrev pub is_stop : OrderType → Bool
is_stop stop = true
is_stop limit = false
is_stop market = false
is_stop other_type = false

abbrev pub is_open : Status → Bool
is_open open_ = true
is_open closed = false
is_open canceled = false
is_open expired = false

module _ {F : Type 0} where
  -- The rows of `_settle`: the open orders, stops before limits.
  unfoldable pub resting : List (Order F) → List (Order F)
  resting os = keep (λ o. is_open o.status) os

  unfoldable pub settle_order : List (Order F) → List (Order F)
  unfolding resting
  settle_order os =
      keep (λ o. is_stop o.ordertype) (resting os)
      ++ keep (λ o. not (is_stop o.ordertype)) (resting os)

module _ {F : Type 0} ⦃fl : Float F⦄ where
  open fl use {add, sub, mul, le}

  -- `usable_range`: a bar's extremes count only if it opened after the order rested.
  abbrev pub usable_range : Candle F → Order F → Bool
  usable_range b r = leb r.opentm b.ts

  -- `last <= price or (usable_range and lo <= price)`: for a stop, and for a limit buy.
  unfoldable pub touched_below : Candle F → Order F → Bool
  touched_below b r = le b.last r.price || (usable_range b r && le b.lo r.price)

  unfoldable pub touched_above : Candle F → Order F → Bool
  touched_above b r = le r.price b.last || (usable_range b r && le r.price b.hi)

  -- A market sell gets less than the price, a market buy pays more.
  unfoldable pub slip_down : Env F → F → F
  slip_down env p = mul p (sub (of_ℕ 1) env.slippage_pct)

  unfoldable pub slip_up : Env F → F → F
  slip_up env p = mul p (add (of_ℕ 1) env.slippage_pct)

  -- What `_settle_one` hands to `_fill`: price, whether it takes liquidity, and the reason.
  unfoldable pub execution : Env F → Candle F → Order F → Option (F × Bool × Reason)
  unfolding touched_below touched_above slip_down slip_up
  execution env b r = elim r.ordertype [
    | market ↦
        some
          (if is_sell r.side then slip_down env b.last else slip_up env b.last, true, market_order)
    | stop ↦
        if touched_below b r
        then some (slip_down env (fmin r.price b.last), true, stop_triggered)
        else none
    | limit ↦
        if (if is_buy r.side then touched_below b r else touched_above b r)
        then some (r.price, false, limit_filled)
        else none
    | other_type ↦
        if (if is_buy r.side then touched_below b r else touched_above b r)
        then some (r.price, false, limit_filled)
        else none
  ]

  abbrev pub execute : Env F → Order F → Option (F × Bool × Reason) → Exchange F → Exchange F
  execute env r none s = s
  execute env r (some (price, taker, reason)) s = fill env r.txid price r.volume taker reason s

  -- `_settle_one`: without market data nothing happens.
  unfoldable pub settle_one : Env F → Order F → Exchange F → Exchange F
  unfolding execution
  settle_one env r s = elim (bar env r.symbol) [
    | none ↦ s
    | some b ↦ execute env r (execution env b r) s
  ]

  unfoldable pub settle_rows : Env F → List (Order F) → Exchange F → Exchange F
  settle_rows env [] s = s
  settle_rows env (r ∷ rs) s = settle_rows env rs (settle_one env r s)

  -- The loop of `_settle`; the financing charge that follows it is in Paper/Rollover.
  unfoldable pub settle_orders : Env F → Exchange F → Exchange F
  unfolding settle_rows settle_order
  settle_orders env s = settle_rows env (settle_order s.orders) s
