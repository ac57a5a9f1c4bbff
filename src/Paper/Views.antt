-- ===== src/Paper/Views.antt =====
-- The read-only endpoints of deepfield/paper_broker.py: the order and position views and the trade
-- balance, with numbers where the source formats ten decimals.
use oracle_deepfield.Base.{ℕ, ◌+◌, Bool, Option, none, some, List, [], ◌∷◌, if◌then◌else◌}
use oracle_deepfield.Base.Names.{Name}
use oracle_deepfield.Num.{Float, nought, of_ℕ, fmax}
use oracle_deepfield.Paper.Types.{
  Side, OrderType, Status, open_, closed, canceled, expired, Reason, Order, Position, Exchange, Env,
}
use oracle_deepfield.Paper.Book.{last_price, open_vol}

-- `_order_view`
pub record OrderView (F : Type 0) : Type 0 where
  pub userref : Name
  pub status : Status
  pub opentm : ℕ
  pub vol : F
  pub vol_exec : F
  pub cost : F
  pub fee : F
  pub price : F
  pub oflags : Name
  pub pair : Name
  pub side : Side
  pub ordertype : OrderType
  pub limit_price : F
  pub leverage : F
  pub closetm : Option ℕ
  pub reason : Option Reason

pub record PositionView (F : Type 0) : Type 0 where
  pub ordertxid : ℕ
  pub pair : Name
  pub time : ℕ
  pub cost : F
  pub fee : F
  pub vol : F
  pub vol_closed : F
  pub margin : F
  pub rollovertm : ℕ
  -- `value` and `net`, when they are asked for
  pub calcs : Option (F × F)

pub record TradeBalance (F : Type 0) : Type 0 where
  pub eb : F
  pub tb : F
  pub m : F
  pub n : F
  pub c : F
  pub v : F
  pub e : F
  pub mf : F
  pub ml : F

-- The sums of `_trade_balance`.
pub record Totals (F : Type 0) : Type 0 where
  pub cost_basis : F
  pub value : F
  pub margin : F

-- A reason is shown only for an order that was canceled or that expired.
abbrev pub shown_reason : Status → Option Reason → Option Reason
shown_reason canceled r = r
shown_reason expired r = r
shown_reason open_ r = none
shown_reason closed r = none

module _ {F : Type 0} ⦃fl : Float F⦄ where
  open fl use {add, sub, mul, div, lt, le}

  unfoldable pub order_view : Order F → OrderView F
  order_view o = record {
    userref = o.userref;
    status = o.status;
    opentm = o.opentm;
    vol = o.volume;
    vol_exec = o.vol_exec;
    cost = o.cost;
    fee = o.fee;
    price = elim o.fill_price [ none ↦ nought | some p ↦ p ];
    oflags = o.oflags;
    pair = o.pair;
    side = o.side;
    ordertype = o.ordertype;
    limit_price = o.price;
    leverage = o.leverage;
    closetm = o.closetm;
    reason = shown_reason o.status o.reason;
  }

  -- `value` and `net`: flat where there is no mark.
  unfoldable pub position_calcs : Position F → Option F → F × F
  position_calcs p none = (nought, nought)
  position_calcs p (some last) =
      let value = mul (open_vol p) last in (value, sub value (mul (open_vol p) p.price))

  unfoldable pub position_view : Env F → Bool → Position F → PositionView F
  unfolding position_calcs
  position_view env docalcs p = record {
    ordertxid = p.ordertxid;
    pair = p.pair;
    time = p.opentm;
    cost = p.cost;
    fee = p.fee;
    vol = p.vol;
    vol_closed = p.vol_closed;
    margin = p.margin;
    rollovertm = p.opentm + 14400;
    calcs = if docalcs then some (position_calcs p (last_price env p.symbol)) else none;
  }

  -- The loop of `_trade_balance`, over the lots that are open; without a mark a lot counts at cost.
  unfoldable pub totals_from : Env F → Totals F → List (Position F) → Totals F
  totals_from env t [] = t
  totals_from env t (p ∷ ps) =
      let vol = open_vol p in
      let last : F = elim (last_price env p.symbol) [ none ↦ p.price | some l ↦ l ] in
      let t' = record t {
        cost_basis = add t.cost_basis (mul vol p.price);
        value = add t.value (mul vol last);
        margin = add t.margin (div (mul vol p.price) (fmax (of_ℕ 1) p.leverage));
      } in
      totals_from env (if le vol nought then t else t') ps

  -- `_trade_balance`
  unfoldable pub trade_balance : Env F → Exchange F → TradeBalance F
  unfolding totals_from
  trade_balance env s =
      let t =
        totals_from env (record { cost_basis = nought; value = nought; margin = nought })
          s.positions in
      let unrealized = sub t.value t.cost_basis in
      let equity = add s.cash unrealized in
      record {
        eb = s.cash;
        tb = s.cash;
        m = t.margin;
        n = unrealized;
        c = t.cost_basis;
        v = t.value;
        e = equity;
        mf = sub equity t.margin;
        ml = if lt nought t.margin then mul (div equity t.margin) (of_ℕ 100) else nought;
      }
