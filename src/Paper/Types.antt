-- ===== src/Paper/Types.antt =====
-- The tables of deepfield/paper_broker.py as records, the parameters of its endpoints, and what
-- the module reads from outside: the clock, the id generator, the candles and the configuration.
-- Times are in one unit, since they are only compared and added to; a transaction id is a number,
-- since it is only compared; pairs and symbols are texts.
use oracle_deepfield.Base.{ℕ, Bool, Option, List}
use oracle_deepfield.Base.Names.{Name}

-- `type`; the code tests for "buy" and for "sell" in different places.
pub data Side : Type 0 where
  buy sell other_side : Side

-- `ordertype`: `stop` is any text with "stop" in it.
pub data OrderType : Type 0 where
  limit stop market other_type : OrderType

pub data Status : Type 0 where
  open_ closed canceled expired : Status

pub data Reason : Type 0 where
  market_order stop_triggered limit_filled no_long_volume canceled_by_user : Reason

-- A row of paper_orders.
pub record Order (F : Type 0) : Type 0 where
  pub txid : ℕ
  pub userref : Name
  pub pair : Name
  pub symbol : Name
  pub side : Side
  pub ordertype : OrderType
  pub price : F
  pub volume : F
  pub leverage : F
  pub oflags : Name
  pub status : Status
  pub vol_exec : F
  pub fill_price : Option F
  pub cost : F
  pub fee : F
  pub opentm : ℕ
  pub closetm : Option ℕ
  pub reason : Option Reason

-- A row of paper_positions; `type` is always buy.
pub record Position (F : Type 0) : Type 0 where
  pub postxid : ℕ
  pub ordertxid : ℕ
  pub pair : Name
  pub symbol : Name
  pub vol : F
  pub vol_closed : F
  pub price : F
  pub cost : F
  pub fee : F
  pub margin : F
  pub leverage : F
  pub opentm : ℕ

pub data Kind : Type 0 where
  margin rollover : Kind

-- A row of paper_ledger; the asset is always ZUSD.
pub record Entry (F : Type 0) : Type 0 where
  pub lid : ℕ
  pub refid : Option ℕ
  pub time : ℕ
  pub kind : Kind
  pub amount : F
  pub fee : F
  pub balance : F

-- The four tables. `cash`, `deposits` and `rollover_next` are the keys of paper_state, and a
-- `rollover_next` of 0 is one that was never set; `draws` counts the ids drawn so far.
pub record Exchange (F : Type 0) : Type 0 where
  pub orders : List (Order F)
  pub positions : List (Position F)
  pub ledger : List (Entry F)
  pub cash : F
  pub deposits : F
  pub rollover_next : ℕ
  pub draws : ℕ

-- A 15m row of the candles table.
pub record Candle (F : Type 0) : Type 0 where
  pub symbol : Name
  pub ts : ℕ
  pub hi : F
  pub lo : F
  pub last : F

-- What one dispatch reads: the clock, the n-th random id, the candles, the lot_decimals column of
-- the pairs table, and the configuration (MARGIN_PAIR, MARGIN_TICK_DECIMALS, PAPER_*).
pub record Env (F : Type 0) : Type 0 where
  pub now : ℕ
  pub txid_of : ℕ → ℕ
  pub candles : List (Candle F)
  pub lot_decimals : List (Name × Option ℕ)
  pub margin_pair : List (Name × Name)
  pub tick_decimals : List (Name × ℕ)
  pub fee_maker_pct : F
  pub fee_taker_pct : F
  pub slippage_pct : F
  pub rollover_secs : ℕ
  pub rollover_pct : F

-- The parameters of AddOrder; `none` is a text that `float` refuses.
pub record Params (F : Type 0) : Type 0 where
  pub pair : Name
  pub side : Side
  pub ordertype : OrderType
  pub volume : Option F
  pub price : Option F
  pub oflags : Name
  pub validate : Bool
  pub userref : Name
  pub leverage : F
