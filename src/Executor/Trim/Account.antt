-- ===== src/Executor/Trim/Account.antt =====
-- The account as the executor reads it: `equity` of deepfield/broker.py, and `_liq_buffer`,
-- `_margin_level`, `_norm_pair_key` and `_pair_net_long` of deepfield/executor.py. A field is none
-- where it is no number; a field that is missing or empty is 0 for a margin or a volume.
use oracle_deepfield.Base.{
  Bool, not, Option, none, some, List, [], ◌∷◌, ◌==◌, any_of, if◌then◌else◌,
}
use oracle_deepfield.Base.Names.{Name, name_eq, name_lookup}
use oracle_deepfield.Num.{Float, nought, of_ℕ, fmax}
use oracle_deepfield.Defense.Buffers.{Buffers, compute}

-- The `rest` keys of PAIRS, and `_ALT_TO_KEY`.
pub record PairKeys : Type 0 where
  pub rest_keys : List Name
  pub alt_to_key : List (Name × Name)

pub record LivePosition (F : Type 0) : Type 0 where
  pub pair : Name
  pub is_sell : Bool
  pub vol : Option F
  pub vol_closed : Option F

-- TradeBalance
pub record Balance (F : Type 0) : Type 0 where
  pub e : Option F
  pub eb : Option F
  pub tb : Option F
  pub m : Option F
  pub v : Option F

-- `text.split(":")[0]`
unfoldable pub before_colon : Name → Name
before_colon [] = []
before_colon (c ∷ cs) = let rest = before_colon cs in if c == 58 then [] else c ∷ rest

abbrev pub key_of : PairKeys → Name → Name
key_of keys base =
    if any_of (name_eq base) keys.rest_keys
    then base
    else elim (name_lookup base keys.alt_to_key) [ none ↦ base | some key ↦ key ]

-- `_norm_pair_key`
unfoldable pub norm_pair_key : PairKeys → Name → Name
unfolding before_colon name_eq
norm_pair_key keys pair = elim (before_colon pair) [ [] ↦ [] | c ∷ cs ↦ key_of keys (c ∷ cs) ]

module _ {F : Type 0} ⦃fl : Float F⦄ where
  open fl use {add, sub, mul, div, lt, le}

  abbrev pub positive_or : Option F → Option F → Option F
  positive_or none rest = rest
  positive_or (some x) rest = if lt nought x then some x else rest

  -- `equity`: the first of the three that is positive
  unfoldable pub equity : Balance F → Option F
  equity b = positive_or b.e (positive_or b.eb (positive_or b.tb none))

  abbrev pub buffer_liq : Option (Buffers F) → Option F
  buffer_liq none = none
  buffer_liq (some c) = some c.buffer_liq_pct

  abbrev pub buffer_with : Option F → Option F → Option F → Option F
  buffer_with e (some m) (some v) = buffer_liq (compute e (some m) (some v))
  buffer_with e _ _ = none

  -- `_liq_buffer`
  unfoldable pub liq_buffer : Option (Balance F) → Option F
  unfolding equity compute
  liq_buffer none = none
  liq_buffer (some b) = buffer_with (equity b) b.m b.v

  abbrev pub level_with : Option F → Option F → Option F
  level_with (some e) (some m) = if le m nought then none else some (div (mul (of_ℕ 100) e) m)
  level_with _ _ = none

  -- `_margin_level`
  unfoldable pub margin_level : Option (Balance F) → Option F
  unfolding equity
  margin_level none = none
  margin_level (some b) = level_with (equity b) b.m

  -- What a lot still holds; one that is no number counts for nothing.
  abbrev pub still_open : Option F → Option F → Option F
  still_open (some vol) (some vol_closed) = some (fmax nought (sub vol vol_closed))
  still_open _ _ = none

  abbrev pub add_lot : F → Option F → F
  add_lot total none = total
  add_lot total (some x) = add total x

  unfoldable pub sum_longs : PairKeys → Name → F → List (LivePosition F) → F
  unfolding norm_pair_key name_eq
  sum_longs keys key total [] = total
  sum_longs keys key total (p ∷ ps) =
      let next = add_lot total (still_open p.vol p.vol_closed) in
      sum_longs keys key
        (if not (name_eq (norm_pair_key keys p.pair) key)
          then total
          else if p.is_sell
          then total
          else next)
        ps

  -- `_pair_net_long` of the venue's answer
  unfoldable pub net_long : PairKeys → Name → Option (List (LivePosition F)) → Option F
  unfolding sum_longs
  net_long keys key none = none
  net_long keys key (some ps) = some (sum_longs keys key nought ps)
