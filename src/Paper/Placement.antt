-- ===== src/Paper/Placement.antt =====
-- `_add_order` of deepfield/paper_broker.py: the checks of a new order in their order, and the row
-- that an accepted one becomes.
use oracle_deepfield.Base.{
  ℕ, suc, Bool, true, false, not, ◌&&◌, ◌||◌, Option, none, some, [], ◌∷◌, ◌++◌, ◌==◌,
  if◌then◌else◌,
}
use oracle_deepfield.Base.Names.{Name, codes, name_lookup}
use oracle_deepfield.Num.{Float, nought}
use oracle_deepfield.Paper.Types.{
  Side, OrderType, limit, stop, market, other_type, open_, Order, Exchange, Env, Params,
}
use oracle_deepfield.Paper.Book.{is_sell, is_buy, last_price, symbol_for}

-- The error strings that the venue's replies carry.
pub data Error : Type 0 where
  unknown_pair invalid_arguments invalid_volume invalid_price volume_precision post_only : Error

pub data Answer : Type 0 where
  refused : Error → Answer
  validated : Answer
  placed : ℕ → Answer

unfoldable pub starts_with : Name → Name → Bool
starts_with [] cs = true
starts_with (p ∷ ps) [] = false
starts_with (p ∷ ps) (c ∷ cs) = p == c && starts_with ps cs

-- `sub in text`
unfoldable pub occurs_in : Name → Name → Bool
unfolding starts_with
occurs_in sub [] = starts_with sub []
occurs_in sub (c ∷ cs) = starts_with sub (c ∷ cs) || occurs_in sub cs

-- `"post" in oflags`
abbrev pub is_post : Name → Bool
is_post oflags = occurs_in (codes "post") oflags

abbrev pub is_market : OrderType → Bool
is_market market = true
is_market limit = false
is_market stop = false
is_market other_type = false

abbrev pub is_limit : OrderType → Bool
is_limit limit = true
is_limit market = false
is_limit stop = false
is_limit other_type = false

module _ {F : Type 0} ⦃fl : Float F⦄ where
  open fl use {lt, le, eq, round}

  -- `x is representable with at most the given decimals`; no entry means no check
  abbrev pub fits_decimals : Option ℕ → F → Bool
  fits_decimals none x = true
  fits_decimals (some d) x = eq (round x d) x

  abbrev pub lot_decimals_of : Env F → Name → Option ℕ
  lot_decimals_of env symbol = elim (name_lookup symbol env.lot_decimals) [
    | none ↦ none
    | some d ↦ d
  ]

  -- A market order carries no price.
  abbrev pub order_price : OrderType → F → F
  order_price t price = if is_market t then nought else price

  -- A price of 0 and a market order are not checked against the tick.
  unfoldable pub bad_tick : Env F → Name → OrderType → F → Bool
  bad_tick env symbol t price =
      not (eq price nought)
      && not (is_market t)
      && not (fits_decimals (name_lookup symbol env.tick_decimals) price)

  unfoldable pub crosses : Side → F → F → Bool
  crosses side price last = (is_buy side && lt last price) || (is_sell side && lt price last)

  -- A post-only limit order that would take liquidity.
  unfoldable pub post_refused : Params F → F → Option F → Bool
  unfolding crosses occurs_in
  post_refused p price none = false
  post_refused p price (some last) =
      is_post p.oflags && is_limit p.ordertype && crosses p.side price last

  -- The row of an accepted order.
  unfoldable pub new_order : Env F → Params F → Name → F → F → ℕ → Order F
  new_order env p symbol volume price t = record {
    txid = t;
    userref = p.userref;
    pair = p.pair;
    symbol = symbol;
    side = p.side;
    ordertype = p.ordertype;
    price = price;
    volume = volume;
    leverage = p.leverage;
    oflags = p.oflags;
    status = open_;
    vol_exec = nought;
    fill_price = none;
    cost = nought;
    fee = nought;
    opentm = env.now;
    closetm = none;
    reason = none;
  }

  unfoldable pub insert_order : Env F → Params F → Name → F → F → Exchange F → Answer × Exchange F
  unfolding new_order
  insert_order env p symbol volume price s =
      let t = env.txid_of s.draws in
      (
        placed t,
        record s {
          orders = s.orders ++ new_order env p symbol volume price t ∷ [];
          draws = suc s.draws;
        },
      )

  -- The checks once the volume and the price are numbers.
  unfoldable pub add_checked : Env F → Params F → Name → F → F → Exchange F → Answer × Exchange F
  unfolding bad_tick post_refused insert_order
  add_checked env p symbol volume price s =
      if le volume nought
      then (refused invalid_volume, s)
      else if bad_tick env symbol p.ordertype price
      then (refused invalid_price, s)
      else if not (fits_decimals (lot_decimals_of env symbol) volume)
      then (refused volume_precision, s)
      else if post_refused p price (last_price env symbol)
      then (refused post_only, s)
      else if p.validate
      then (validated, s)
      else insert_order env p symbol volume price s

  -- Volume and price through `float`.
  unfoldable pub add_parsed :
      Env F → Params F → Name → Option F → Option F → Exchange F → Answer × Exchange F
  unfolding add_checked
  add_parsed env p symbol (some volume) (some price) s =
      add_checked env p symbol volume (order_price p.ordertype price) s
  add_parsed env p symbol (some volume) none s = (refused invalid_arguments, s)
  add_parsed env p symbol none price s = (refused invalid_arguments, s)

  -- `_add_order`
  unfoldable pub add_order : Env F → Params F → Exchange F → Answer × Exchange F
  unfolding add_parsed symbol_for
  add_order env p s = elim (symbol_for env.margin_pair p.pair) [
    | none ↦ (refused unknown_pair, s)
    | some symbol ↦ add_parsed env p symbol p.volume p.price s
  ]
