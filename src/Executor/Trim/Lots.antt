-- ===== src/Executor/Trim/Lots.antt =====
-- One lot of the book and its close: `_pick_trim_lot` and `_close_lot` of deepfield/executor.py. The
-- broker's answers may depend on the orders sent so far.
use oracle_deepfield.Base.{
  ℕ, Bool, true, false, not, ◌&&◌, ◌||◌, Option, none, some, List, [], ◌∷◌, ◌++◌, if◌then◌else◌,
}
use oracle_deepfield.Base.Names.{Name, codes}
use oracle_deepfield.Num.{Float, nought, fmin}
use oracle_deepfield.Executor.Ledger.{Mode, mode_eq, closed, is_open, text, Row, update_row}
use oracle_deepfield.Executor.Sizing.{PairInfo, round_down}
use oracle_deepfield.Executor.Venue.{Request, sells, Reply, landed}
use oracle_deepfield.Executor.Trim.Account.{PairKeys, LivePosition, Balance, net_long}

-- A resting order at the venue.
pub record Resting : Type 0 where
  pub txid : Name
  pub is_buy : Bool
  pub pair : Name

-- The broker: its answers after the orders sent so far.
pub record Broker (F : Type 0) : Type 0 where
  pub positions : List (Request F) → Option (List (LivePosition F))
  pub balance : List (Request F) → Option (Balance F)
  pub open_orders : Option (List Resting)
  pub reply : List (Request F) → Request F → Reply

-- REVERSE_GEAR_* and what the governor reads besides.
pub record Governor (F : Type 0) : Type 0 where
  pub mode : Mode
  pub sim_attached : Bool
  pub enabled : Bool
  pub trigger_pct : F
  pub target_pct : F
  pub max_lots : ℕ
  pub cancel_bids : Bool
  pub pair_info : Name → PairInfo F
  pub rest_of : Name → Name
  pub keys : PairKeys

-- The orders table, the orders sent, and the orders canceled.
pub record Desk (F : Type 0) : Type 0 where
  pub orders : List (Row F)
  pub sent : List (Request F)
  pub cancels : List Name

abbrev pub cancel_stop : Option Name → List Name → List Name
cancel_stop none cs = cs
cancel_stop (some given) cs = cs ++ given ∷ []

module _ {F : Type 0} ⦃fl : Float F⦄ where
  open fl use {lt, le, round}

  abbrev pub is_lot : Mode → Row F → Bool
  is_lot m r = is_open r.status && mode_eq r.mode m

  abbrev pub notional_or_zero : Row F → F
  notional_or_zero r = elim (r.notional) [ none ↦ nought | some n ↦ n ]

  -- ORDER BY COALESCE(notional,0) DESC, volume DESC
  unfoldable pub ranks_above : Row F → Row F → Bool
  ranks_above a b =
      lt (notional_or_zero b) (notional_or_zero a)
      || (not (lt (notional_or_zero a) (notional_or_zero b)) && lt b.volume a.volume)

  abbrev pub better : Row F → Option (Row F) → Option (Row F)
  better r none = some r
  better r (some best) = if ranks_above best r then some best else some r

  -- `_pick_trim_lot`
  unfoldable pub pick_trim_lot : Mode → List (Row F) → Option (Row F)
  unfolding ranks_above
  pick_trim_lot m [] = none
  pick_trim_lot m (r ∷ rows) =
      let best = pick_trim_lot m rows in if is_lot m r then better r best else best

  -- The volume of a close, no more than the lot and the live net long.
  unfoldable pub close_volume : PairInfo F → F → F → F
  unfolding round_down
  close_volume info volume net = elim (info.lot_decimals) [
    | none ↦ fmin volume net
    | some d ↦ round_down (fmin volume net) d
  ]

  abbrev pub volume_text : PairInfo F → F → F
  volume_text info x = elim (info.lot_decimals) [ none ↦ round x 8 | some d ↦ x ]

  unfoldable pub close_request : Governor F → Row F → F → Request F
  close_request g lot volume = record {
    pair = lot.margin_pair;
    side = sells;
    ordertype = codes "market";
    volume = volume_text (g.pair_info lot.symbol) volume;
    leverage = lot.leverage;
    price = none;
    post_only = false;
    validate_only = false;
    userref = none;
  }

  abbrev pub close_row : Name → Row F → Row F
  close_row why r = record r { status = closed; stop_txid = none; error = text (why) }

  abbrev pub strip_row : Row F → Row F
  strip_row r = record r { stop_txid = none; error = text (codes "reverse-gear close failed") }

  abbrev pub zero_row : Row F → Row F
  zero_row r = record r { status = closed; error = text (codes "reverse-gear (zero vol)") }

  -- The rows after the answer to a close: retired, or without the stop that was canceled.
  abbrev pub after_close : Option Name → ℕ → List (Row F) → Bool × List (Row F)
  after_close none i rows = (false, update_row i strip_row rows)
  after_close (some given) i rows =
      (true, update_row i (close_row (codes "reverse-gear trim")) rows)

  -- The close against a known net long.
  unfoldable pub close_backed : Governor F → Broker F → Row F → F → Desk F → Bool × Desk F
  unfolding close_volume close_request update_row
  close_backed g k lot net d =
      let volume = close_volume (g.pair_info lot.symbol) lot.volume net in
      let cancels = cancel_stop lot.stop_txid d.cancels in
      let q = close_request g lot volume in
      let after = after_close (landed (k.reply d.sent q)) lot.id d.orders in
      if le volume nought
      then (
        true,
        record d {
          orders = update_row lot.id (close_row (codes "reverse-gear (no backing)")) d.orders;
          cancels = cancels;
        },
      )
      else (after.0, record { orders = after.1; sent = d.sent ++ q ∷ []; cancels = cancels })

  unfoldable pub close_known : Governor F → Broker F → Row F → Option F → Desk F → Bool × Desk F
  unfolding close_backed
  close_known g k lot none d = (false, d)
  close_known g k lot (some net) d = close_backed g k lot net d

  -- `_close_lot`
  unfoldable pub close_lot : Governor F → Broker F → Row F → Desk F → Bool × Desk F
  unfolding close_known update_row net_long
  close_lot g k lot d =
      if le lot.volume nought
      then (true, record d { orders = update_row lot.id zero_row d.orders })
      else close_known g k lot (net_long g.keys (g.rest_of lot.symbol) (k.positions d.sent)) d
