-- ===== src/Paper/Book.antt =====
-- Cash, positions and fills of deepfield/paper_broker.py: `_credit`, `_long_open_vol`,
-- `_close_longs`, `_fill`, and the lookups `_symbol_for`, `_bar` and `_last_price`.
use oracle_deepfield.Base.{
  ℕ, suc, Bool, true, false, not, ◌&&◌, Option, none, some, List, [], ◌∷◌, ◌++◌, map, ltb, leb,
  ◌==◌, if◌then◌else◌, keep, find_of,
}
use oracle_deepfield.Base.Names.{Name, name_eq}
use oracle_deepfield.Num.{Float, nought, of_ℕ, fmax, fmin, fsum}
use oracle_deepfield.Paper.Types.{
  Side, buy, sell, other_side, closed, canceled, Reason, no_long_volume, Order, Position, Kind,
  Entry, Exchange, Candle, Env,
}

abbrev pub is_sell : Side → Bool
is_sell sell = true
is_sell buy = false
is_sell other_side = false

abbrev pub is_buy : Side → Bool
is_buy buy = true
is_buy sell = false
is_buy other_side = false

-- `str(pair).split(":")[0]`
unfoldable pub before_colon : Name → Name
before_colon [] = []
before_colon (c ∷ cs) = if c == b':' then [] else c ∷ before_colon cs

-- The inverse of MARGIN_PAIR: the last symbol with the pair wins.
unfoldable pub symbol_of_pair : List (Name × Name) → Name → Option Name
symbol_of_pair [] p = none
symbol_of_pair ((sym, mp) ∷ m) p = elim (symbol_of_pair m p) [
  | some s ↦ some s
  | none ↦ if name_eq mp p then some sym else none
]

-- The `setdefault` entries: the first symbol whose pair has the root.
unfoldable pub symbol_of_root : List (Name × Name) → List (Name × Name) → Name → Option Name
unfolding before_colon symbol_of_pair
symbol_of_root all [] p = none
symbol_of_root all ((sym, mp) ∷ m) p =
    if name_eq (before_colon mp) p then symbol_of_pair all mp else symbol_of_root all m p

abbrev pub or_else {ℓ} : {A : Type ℓ} → Option A → Option A → Option A
or_else (some a) o = some a
or_else none o = o

unfoldable pub symbol_in_map : List (Name × Name) → Name → Option Name
unfolding symbol_of_pair symbol_of_root
symbol_in_map m p = or_else (symbol_of_pair m p) (symbol_of_root m m p)

unfoldable pub symbol_for : List (Name × Name) → Name → Option Name
unfolding symbol_in_map before_colon
symbol_for m p = or_else (symbol_in_map m p) (symbol_in_map m (before_colon p))

module _ {ℓ} {A : Type ℓ} where
  -- ORDER BY: a stable insertion sort, `before a b` when a row a may stand in front of b.
  unfoldable pub insert_by : (A → A → Bool) → A → List A → List A
  insert_by before a [] = a ∷ []
  insert_by before a (b ∷ bs) = if before a b then a ∷ b ∷ bs else b ∷ insert_by before a bs

  unfoldable pub sort_by : (A → A → Bool) → List A → List A
  unfolding insert_by
  sort_by before [] = []
  sort_by before (a ∷ as') = insert_by before a (sort_by before as')

module _ {F : Type 0} where
  unfoldable pub later : Option (Candle F) → Candle F → Bool
  later none c = true
  later (some a) c = ltb a.ts c.ts

  -- SELECT … WHERE pair=? AND interval=15 ORDER BY ts DESC LIMIT 1
  unfoldable pub newest : Option (Candle F) → List (Candle F) → Name → Option (Candle F)
  unfolding later
  newest best [] symbol = best
  newest best (b ∷ bs) symbol =
      newest (if name_eq b.symbol symbol && later best b then some b else best) bs symbol

  unfoldable pub bar : Env F → Name → Option (Candle F)
  unfolding newest
  bar env symbol = newest none env.candles symbol

  unfoldable pub last_price : Env F → Name → Option F
  unfolding bar
  last_price env symbol = elim (bar env symbol) [ none ↦ none | some b ↦ some b.last ]

  -- UPDATE paper_orders SET … WHERE txid=?
  unfoldable pub update_order : ℕ → (Order F → Order F) → List (Order F) → List (Order F)
  update_order t f [] = []
  update_order t f (o ∷ os) = (if o.txid == t then f o else o) ∷ update_order t f os

  abbrev pub find_order : ℕ → List (Order F) → Option (Order F)
  find_order t = find_of (λ o. o.txid == t)

  abbrev pub mark_canceled : Env F → Reason → Order F → Order F
  mark_canceled env reason o = record o {
    status = canceled;
    closetm = some env.now;
    reason = some reason;
  }

  abbrev pub mark_closed : Env F → F → F → F → F → Reason → Order F → Order F
  mark_closed env volume price gross fee reason o = record o {
    status = closed;
    vol_exec = volume;
    fill_price = some price;
    cost = gross;
    fee = fee;
    closetm = some env.now;
    reason = some reason;
  }

module _ {F : Type 0} ⦃fl : Float F⦄ where
  open fl use {add, sub, mul, div, lt, le, dec}

  -- The ledger row of a cash movement.
  unfoldable pub new_entry : Env F → F → Kind → F → Option ℕ → Exchange F → Entry F
  new_entry env amount kind fee refid s = record {
    lid = env.txid_of s.draws;
    refid = refid;
    time = env.now;
    kind = kind;
    amount = amount;
    fee = fee;
    balance = sub (add s.cash amount) fee;
  }

  -- `_credit`: moves cash and records a ledger entry.
  unfoldable pub credit : Env F → F → Kind → F → Option ℕ → Exchange F → Exchange F
  unfolding new_entry
  credit env amount kind fee refid s = record s {
    cash = sub (add s.cash amount) fee;
    ledger = s.ledger ++ new_entry env amount kind fee refid s ∷ [];
    draws = suc s.draws;
  }

  abbrev pub open_vol : Position F → F
  open_vol p = sub p.vol p.vol_closed

  -- `_long_open_vol`
  unfoldable pub long_open_vol : Name → List (Position F) → F
  long_open_vol pair ps = fmax nought (fsum (map open_vol (keep (λ p. name_eq p.pair pair) ps)))

  -- The rows that `_close_longs` walks, oldest first.
  unfoldable pub open_lots : Name → List (Position F) → List (Position F)
  unfolding sort_by
  open_lots pair ps =
      sort_by (λ p q. leb p.opentm q.opentm)
        (keep (λ p. name_eq p.pair pair && lt p.vol_closed p.vol) ps)

  -- UPDATE paper_positions SET vol_closed=vol_closed+? WHERE postxid=?
  unfoldable pub advance : ℕ → F → List (Position F) → List (Position F)
  advance id take [] = []
  advance id take (p ∷ ps) =
      (if p.postxid == id then record p { vol_closed = add p.vol_closed take } else p)
      ∷ advance id take ps

  -- The loop of `_close_longs`: what each lot gives, oldest first, until nothing is left to close.
  unfoldable pub takes : F → List (Position F) → List (Position F × F)
  takes remaining [] = []
  takes remaining (p ∷ ps) =
      let take = fmin remaining (open_vol p) in
      let rest = takes (sub remaining take) ps in
      if le remaining nought then [] else (p, take) ∷ rest

  unfoldable pub advance_all : List (Position F × F) → List (Position F) → List (Position F)
  unfolding advance
  advance_all [] ps = ps
  advance_all ((p, take) ∷ r) ps = advance_all r (advance p.postxid take ps)

  unfoldable pub realized_from : F → F → List (Position F × F) → F
  realized_from fill_price acc [] = acc
  realized_from fill_price acc ((p, take) ∷ r) =
      realized_from fill_price (add acc (mul take (sub fill_price p.price))) r

  -- `_close_longs`: the positions left, and the gross realized P&L.
  unfoldable pub close_longs : Name → F → F → List (Position F) → List (Position F) × F
  unfolding open_lots takes advance_all realized_from
  close_longs pair volume fill_price ps =
      let closing = takes volume (open_lots pair ps) in
      (
        keep (λ p. not (le (open_vol p) (dec 1 12))) (advance_all closing ps),
        realized_from fill_price nought closing,
      )

  -- The position that a buy opens: the notional is financed.
  unfoldable pub new_lot : Env F → Order F → F → F → F → F → ℕ → Position F
  new_lot env o price volume gross fee id = record {
    postxid = id;
    ordertxid = o.txid;
    pair = o.pair;
    symbol = o.symbol;
    vol = volume;
    vol_closed = nought;
    price = price;
    cost = gross;
    fee = fee;
    margin = div gross (fmax (of_ℕ 1) o.leverage);
    leverage = o.leverage;
    opentm = env.now;
  }

  abbrev pub with_lot : Position F → Exchange F → Exchange F
  with_lot p s = record s { positions = s.positions ++ p ∷ []; draws = suc s.draws }

  -- The buy half of `_fill`: a new lot, and the fee is paid.
  unfoldable pub open_long : Env F → Order F → F → F → F → F → Exchange F → Exchange F
  unfolding credit new_lot
  open_long env o price volume gross fee s =
      credit env nought Kind.margin fee (some o.txid)
        (with_lot (new_lot env o price volume gross fee (env.txid_of s.draws)) s)

  -- The other half: lots are retired, and the realized P&L less the fee is credited.
  unfoldable pub reduce_long : Env F → Order F → F → F → F → Exchange F → Exchange F
  unfolding credit close_longs
  reduce_long env o price volume fee s =
      let (left, realized) = close_longs o.pair volume price s.positions in
      credit env realized Kind.margin fee (some o.txid) (record s { positions = left })

  -- The executed volume: a sell retires only what is held.
  unfoldable pub executable : Order F → F → List (Position F) → F
  unfolding long_open_vol
  executable o volume ps = elim o.side [
    | sell ↦ fmin volume (long_open_vol o.pair ps)
    | buy ↦ volume
    | other_side ↦ volume
  ]

  -- The row is closed at the executed volume.
  abbrev pub close_order : Env F → Order F → F → F → F → F → Reason → Exchange F → Exchange F
  close_order env o price volume gross fee reason s = record s {
    orders = update_order o.txid (mark_closed env volume price gross fee reason) s.orders;
  }

  -- A sell with nothing to retire is dropped.
  abbrev pub drop_order : Env F → Order F → Exchange F → Exchange F
  drop_order env o s = record s {
    orders = update_order o.txid (mark_canceled env no_long_volume) s.orders;
  }

  -- `_fill` at the executable volume.
  unfoldable pub fill_volume : Env F → Order F → F → F → F → F → Reason → Exchange F → Exchange F
  unfolding open_long reduce_long update_order
  fill_volume env o price volume gross fee reason s =
      let s' = close_order env o price volume gross fee reason s in
      if is_sell o.side && le volume nought
      then drop_order env o s
      else if is_buy o.side
      then open_long env o price volume gross fee s'
      else reduce_long env o price volume fee s'

  -- `_fill` once the order row is found.
  unfoldable pub fill_found : Env F → Order F → F → F → Bool → Reason → Exchange F → Exchange F
  unfolding executable fill_volume
  fill_found env o price volume taker reason s =
      let volume' = executable o volume s.positions in
      let gross = mul volume' price in
      let fee = mul gross (if taker then env.fee_taker_pct else env.fee_maker_pct) in
      fill_volume env o price volume' gross fee reason s

  -- `_fill`
  unfoldable pub fill : Env F → ℕ → F → F → Bool → Reason → Exchange F → Exchange F
  unfolding fill_found
  fill env t price volume taker reason s = elim (find_order t s.orders) [
    | none ↦ s
    | some o ↦ fill_found env o price volume taker reason s
  ]
