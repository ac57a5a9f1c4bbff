-- ===== src/Executor/Venue.antt =====
-- What deepfield/executor.py sends and what it reads and writes around an order: the requests and the
-- broker's replies, the configuration, the state, and the rounding of a price and of a volume to
-- what the venue accepts.
use oracle_deepfield.Base.{ℕ, suc, Bool, true, false, Option, none, some, List, [], ◌∷◌, ◌++◌}
use oracle_deepfield.Base.Names.{Name, name_lookup}
use oracle_deepfield.Num.{Float}
use oracle_deepfield.Executor.Ledger.{Mode, off, paper, validate, Row}
use oracle_deepfield.Executor.Rails.{Limits, Session}
use oracle_deepfield.Executor.Sizing.{PairInfo, SizeConfig, round_down}
use oracle_deepfield.Executor.Bucket.{Pace, Bucket}
use oracle_deepfield.Executor.Gates.{RegimeGate}

-- An order as it is sent; a market order has no price.
pub data Side : Type 0 where
  buys sells : Side

pub record Request (F : Type 0) : Type 0 where
  pub pair : Name
  pub side : Side
  pub ordertype : Name
  pub volume : F
  pub leverage : F
  pub price : Option F
  pub post_only : Bool
  pub validate_only : Bool
  pub userref : Option ℕ

-- The answer of `broker.private` to AddOrder: `none` is no result, `some none` a result without a
-- txid; `definite` is what it notes of a failure.
pub record Reply : Type 0 where
  pub result : Option (Option Name)
  pub definite : Bool
  pub descr : Name

-- The frozen distances of a pair.
pub record Targets (F : Type 0) : Type 0 where
  pub tp_pct : F
  pub sl_pct : F
  pub rung_pct : F

pub record Config (F : Type 0) : Type 0 where
  pub margin_pair : List (Name × Name)
  pub excluded_pairs : List Name
  pub regime_gate : RegimeGate
  pub limits : Limits F
  pub per_pair_leverage : List (Name × F)
  pub sizes : SizeConfig F
  pub pace : Pace F
  pub limit_entries : Bool
  pub post_only_slip_pct : F
  pub tick_decimals : List (Name × ℕ)
  pub protective_stop : Bool
  pub paper_portfolio_usd : F

-- What an entry reads: the mode, whether a simulated exchange is attached, the HALT file, the
-- stored regime, the pairs table, the volatility table, the answers of TradeBalance and AddOrder,
-- the clock as a date, at the check of the budget and at the debit, and a fresh client order id.
pub record Reads (F : Type 0) : Type 0 where
  pub mode : Mode
  pub sim_attached : Bool
  pub halt_file : Bool
  pub regime : Option Name
  pub pair_info : Name → PairInfo F
  pub distances : Name → Targets F
  pub balance : Option F
  pub reply : Request F → Reply
  pub now : ℕ
  pub checked_at : F
  pub debited_at : F
  pub new_userref : ℕ
  pub paper_txid : Name
  pub paper_stop_txid : ℕ → Name

-- What it writes: the orders table with its next id, the stored peak, the bucket, and the orders
-- sent so far.
pub record World (F : Type 0) : Type 0 where
  pub orders : List (Row F)
  pub next_id : ℕ
  pub peak_equity : Option F
  pub bucket : Option (Bucket F)
  pub sent : List (Request F)

abbrev pub is_paper : Mode → Bool
is_paper paper = true
is_paper _ = false

abbrev pub is_validate : Mode → Bool
is_validate validate = true
is_validate _ = false

abbrev pub is_off : Mode → Bool
is_off off = true
is_off _ = false

-- `res and res.get("txid")`
abbrev pub landed : Reply → Option Name
landed a = elim (a.result) [ none ↦ none | some t ↦ t ]

module _ {F : Type 0} ⦃fl : Float F⦄ where
  open fl use {round}

  -- `_tick_round` of a price
  unfoldable pub tick_round : List (Name × ℕ) → Name → F → F
  tick_round ticks symbol px = elim (name_lookup symbol ticks) [
    | none ↦ round px 2
    | some d ↦ round px d
  ]

  -- `_vol_str`, as the number that the text names
  unfoldable pub vol_str : PairInfo F → F → F
  unfolding round_down
  vol_str info volume = elim (info.lot_decimals) [
    | none ↦ round volume 8
    | some d ↦ round_down volume d
  ]

  abbrev pub session_of : Reads F → World F → Session F
  session_of r w = record {
    mode = r.mode;
    sim_attached = r.sim_attached;
    halt_file = r.halt_file;
    peak_equity = w.peak_equity;
    now = r.now;
    orders = w.orders;
  }

  -- `store.insert_order`: the id it returns, and the table
  unfoldable pub insert_order : Row F → World F → Option ℕ × World F
  insert_order row w = (
    some w.next_id,
    record w { orders = w.orders ++ (record row { id = w.next_id }) ∷ []; next_id = suc w.next_id },
  )

  abbrev pub send : Request F → World F → World F
  send q w = record w { sent = w.sent ++ q ∷ [] }
