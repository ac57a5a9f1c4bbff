-- ===== src/Paper/Tests.antt =====
-- A small book on concrete decimals, and the theorems on the simulated venue applied to it.
use oracle_deepfield.Base.{
  ℕ, suc, ◌≤◌, ◌≡◌, ◌≢◌, refl, Bool, true, false, Option, none, some, List, [], ◌∷◌, ◌++◌, ◌⊎◌,
  arith, All, length, ◌==◌, if◌then◌else◌,
}
use oracle_deepfield.Base.Names.{Name, codes, name_eq}
use oracle_deepfield.Num.{nought, of_ℕ, fmin}
use oracle_deepfield.Num.Fixed.{Fixed, fixed, fixed-IsOrdered}
use oracle_deepfield.Paper.Types.{
  buy, sell, limit, stop, stop_triggered, Order, Position, Exchange, Candle, Env, Params,
}
use oracle_deepfield.Paper.Book.{takes, long_open_vol, fill, last_price}
use oracle_deepfield.Paper.Settle.{execution, is_open}
use oracle_deepfield.Paper.Rollover.{settle}
use oracle_deepfield.Paper.Placement.{placed, add_order, new_order}
use oracle_deepfield.Paper.Exchange.{Request, place, cancel_order, balance, dispatch, run, seed}
use oracle_deepfield.Paper.Accounting.{IsReconciled, run-seed-IsReconciled}
use oracle_deepfield.Paper.Pricing.{execution_no_look_ahead}
use oracle_deepfield.Paper.Sells.{FilledWithin, fill_within}
use oracle_deepfield.Paper.Acceptance.{IsAcceptable, add_order_atomic, add_order_needs}
use oracle_deepfield.Paper.Rows.{Grows, Distinct}
use oracle_deepfield.Paper.Audit.{LedgerRow, audit}
use oracle_deepfield.Paper.Completion.{Triggered, FinishedAt, settle-FinishedAt}
use oracle_deepfield.Paper.Runs.{IsIdentified, run-Grows}

abbrev units : ℕ → Fixed
units n = of_ℕ n

abbrev hundredths : ℕ → Fixed
hundredths n = fixed.dec n 2

abbrev bar_at : ℕ → ℕ → ℕ → ℕ → Candle Fixed
bar_at ts hi lo last = record {
  symbol = codes "BTC/USD";
  ts = ts;
  hi = units hi;
  lo = units lo;
  last = units last;
}

abbrev env_at : ℕ → Candle Fixed → Env Fixed
env_at now bar = record {
  now = now;
  txid_of = λ n. n;
  candles = bar ∷ [];
  lot_decimals = (codes "BTC/USD", some 4) ∷ [];
  margin_pair = (codes "BTC/USD", codes "XBTUSD") ∷ [];
  tick_decimals = (codes "BTC/USD", 1) ∷ [];
  fee_maker_pct = fixed.dec 25 4;
  fee_taker_pct = fixed.dec 40 4;
  slippage_pct = fixed.dec 5 4;
  rollover_secs = 14400;
  rollover_pct = fixed.dec 2 4;
}

abbrev morning : Env Fixed
morning = env_at 1000 (bar_at 900 110 90 100)

abbrev noon : Env Fixed
noon = env_at 2000 (bar_at 1900 104 80 85)

-- A post-only limit buy of 0.5 at 95.
abbrev bid : Params Fixed
bid = record {
  pair = codes "XBTUSD";
  side = buy;
  ordertype = limit;
  volume = some (hundredths 50);
  price = some (units 95);
  oflags = codes "post";
  validate = false;
  userref = codes "7";
  leverage = units 5;
}

abbrev protect : Params Fixed
protect = record bid { side = sell; ordertype = stop; price = some (units 82); oflags = [] }

abbrev book : Exchange Fixed
book = seed (units 1000)

abbrev requests : List (Env Fixed × Request Fixed)
requests =
    (morning, place bid) ∷ (noon, place protect) ∷ (noon, cancel_order 1) ∷ (noon, balance) ∷ []

abbrev resting_bid : Order Fixed
resting_bid = new_order morning bid (codes "BTC/USD") (hundredths 50) (units 95) 0

abbrev resting_stop : Order Fixed
resting_stop = new_order morning protect (codes "BTC/USD") (hundredths 50) (units 82) 1

abbrev lot : ℕ → ℕ → ℕ → Position Fixed
lot id cents opened = record {
  postxid = id;
  ordertxid = 0;
  pair = codes "XBTUSD";
  symbol = codes "BTC/USD";
  vol = hundredths cents;
  vol_closed = nought;
  price = units 95;
  cost = units 47;
  fee = nought;
  margin = units 10;
  leverage = units 5;
  opentm = opened;
}

abbrev lots : List (Position Fixed)
lots = lot 10 30 100 ∷ lot 11 40 200 ∷ []

-- A book with both orders resting and two lots.
abbrev busy : Exchange Fixed
busy = record book { orders = resting_bid ∷ resting_stop ∷ []; positions = lots; draws = 20 }

bid_rests : (dispatch true morning (place bid) book).1.orders ≡ resting_bid ∷ []
unfolding dispatch add_order new_order oracle_deepfield.Base.Names.name_eq
    oracle_deepfield.Num.Fixed.rounded last_price seed
bid_rests = refl

bid_fills_at_noon :
    length (dispatch true noon balance (run ((morning, place bid) ∷ []) book)).1.positions ≡ 1
unfolding dispatch run add_order oracle_deepfield.Base.Names.name_eq
    oracle_deepfield.Num.Fixed.rounded last_price seed oracle_deepfield.Paper.Settle.settle_one fill
bid_fills_at_noon = refl

-- The same lots, the younger one first.
abbrev mixed : List (Position Fixed)
mixed = lot 11 40 200 ∷ lot 10 30 100 ∷ []

closes_oldest_first :
    takes (hundredths 50) lots
    ≡ (lot 10 30 100, hundredths 30) ∷ (lot 11 40 200, hundredths 20) ∷ []
unfolding takes oracle_deepfield.Base.Int.◌-ℤ◌
closes_oldest_first = refl

run-seed-IsReconciled_example : IsReconciled (units 1000) (run requests (seed (units 1000)))
run-seed-IsReconciled_example = run-seed-IsReconciled (units 1000) requests

execution_no_look_ahead_example :
    execution morning (record (bar_at 900 110 90 100) { hi = units 500; lo = units 1 }) resting_bid
    ≡ execution morning (bar_at 900 110 90 100) resting_bid
unfolding new_order
execution_no_look_ahead_example =
    execution_no_look_ahead morning (bar_at 900 110 90 100) resting_bid (units 500) (units 1)
      (omega arith)

fill_within_example :
    FilledWithin
      (units 3)
      (long_open_vol (codes "XBTUSD") lots)
      1
      resting_stop
      (fill noon 1 (units 82) (units 3) true stop_triggered busy).orders
unfolding long_open_vol new_order oracle_deepfield.Base.Names.name_eq oracle_deepfield.Base.Int.◌+ℤ◌
    oracle_deepfield.Base.Int.◌-ℤ◌
fill_within_example =
    fill_within fixed-IsOrdered noon 1 (units 82) (units 3) true stop_triggered busy resting_stop
      refl refl refl refl

bid-IsAcceptable : IsAcceptable morning bid (codes "BTC/USD") (hundredths 50) (units 95)
unfolding add_order oracle_deepfield.Base.Names.name_eq oracle_deepfield.Num.Fixed.rounded
    last_price
bid-IsAcceptable = record {
  known = refl;
  volume_given = refl;
  price_given = refl;
  positive = refl;
  tick = refl;
  lots = refl;
  maker = refl;
  real = refl;
}

add_order_atomic_example :
    ((t : ℕ) × ((add_order morning bid book).0 ≡ placed t))
    ⊎ ((add_order morning bid book).1 ≡ book)
add_order_atomic_example = add_order_atomic morning bid book

bid_is_placed : (add_order morning bid book).0 ≡ placed 0
unfolding add_order oracle_deepfield.Base.Names.name_eq oracle_deepfield.Num.Fixed.rounded
    last_price seed
bid_is_placed = refl

add_order_needs_example :
    (symbol : Name) × (volume : Fixed) × (price : Fixed) × IsAcceptable morning bid symbol volume
      price
add_order_needs_example = add_order_needs morning bid book 0 bid_is_placed

morning_price : last_price morning (codes "BTC/USD") ≡ some (units 100)
unfolding last_price oracle_deepfield.Base.Names.name_eq
morning_price = refl

busy-Distinct : Distinct busy.orders
unfolding new_order
busy-Distinct = ((refl, tt), (tt, tt))

settle-FinishedAt_example :
    All
      (λ r.
        is_open r.status ≡ true → Triggered noon r → FinishedAt r.txid (settle noon busy).orders)
      busy.orders
settle-FinishedAt_example = settle-FinishedAt noon busy busy-Distinct

abbrev ledger : List (LedgerRow Fixed)
ledger =
    (record {
      symbol = codes "BTC/USD";
      txid = 9;
      stop_txid = some 1;
      close_txid = none;
      volume = hundredths 70;
      live = true;
    })
    ∷ []

finds_the_unfilled_row : (audit ledger busy).unfilled ≡ codes "BTC/USD" ∷ []
unfolding audit new_order
finds_the_unfilled_row = refl

stop_protects_the_lot : (audit ledger busy).naked ≡ []
unfolding audit new_order
stop_protects_the_lot = refl

book-IsIdentified : IsIdentified (λ n. n) book
unfolding seed
book-IsIdentified = record { distinct = tt; drawn = tt }

run-Grows_example :
    Grows book.orders (run requests book).orders × IsIdentified (λ n. n) (run requests book)
run-Grows_example =
    run-Grows (λ n. n) (λ j k e. e) requests book (refl, (refl, (refl, (refl, tt))))
      book-IsIdentified
