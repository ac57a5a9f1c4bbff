-- ===== src/Executor/Ledger.antt =====
-- The `orders` table of deepfield/store.py as the executor reads and writes it: its rows, the counts
-- and sums over them, and the changes of one row. Times are in seconds. A column that every insert
-- fills is a value; one that a query tests for NULL is an option.
use oracle_deepfield.Base.{
  ℕ, ◌+◌, ◌-◌, ◌*◌, ◌/◌, ◌%◌, Bool, true, false, ◌&&◌, ◌||◌, Option, none, some, List, [], ◌∷◌,
  ◌++◌, ◌==◌, leb, if◌then◌else◌, map, keep, any_of, count_of,
}
use oracle_deepfield.Base.Names.{Name, name_eq}
use oracle_deepfield.Num.{Float, fsum}

-- EXEC_MODE
pub data Mode : Type 0 where
  off paper validate live : Mode

abbrev pub mode_eq : Mode → Mode → Bool
mode_eq off off = true
mode_eq paper paper = true
mode_eq validate validate = true
mode_eq live live = true
mode_eq _ _ = false

pub data Status : Type 0 where
  pending open_ canceled rejected validated closed : Status

abbrev pub is_pending : Status → Bool
is_pending pending = true
is_pending _ = false

abbrev pub is_open : Status → Bool
is_open open_ = true
is_open _ = false

abbrev pub is_closed : Status → Bool
is_closed closed = true
is_closed _ = false

pub data Exit : Type 0 where
  stop_exit flatten_exit harvest_exit : Exit

abbrev pub is_stop_exit : Exit → Bool
is_stop_exit stop_exit = true
is_stop_exit _ = false

-- The `error` column: empty, a plain text, or the JSON of a priced exit with its `exit`,
-- `closed_ts` and `pnl`.
pub data Note (F : Type 0) : Type 0 where
  blank : Note F
  text : Name → Note F
  priced : Exit → ℕ → F → Note F

pub record Row (F : Type 0) : Type 0 where
  pub id : ℕ
  pub ts : ℕ
  pub symbol : Name
  pub margin_pair : Name
  pub mode : Mode
  pub entry : F
  pub stop : F
  pub stop_prot : Option F
  pub volume : F
  pub leverage : F
  pub notional : Option F
  pub margin : F
  pub risk_usd : F
  pub score : Option ℕ
  pub required : Option ℕ
  pub txid : Option Name
  pub stop_txid : Option Name
  pub close_txid : Option Name
  pub status : Status
  pub error : Note F
  pub userref : Option ℕ
  pub tp_pct : F
  pub sl_pct : F
  pub rung_pct : F

-- Midnight and the Monday before it, in UTC; day 0 of the clock was a Thursday.
abbrev pub day_start : ℕ → ℕ
day_start now = now - now % 86_400

abbrev pub week_start : ℕ → ℕ
week_start now = day_start now - (now / 86_400 + 3) % 7 * 86_400

module _ {F : Type 0} ⦃fl : Float F⦄ where
  open fl use {mul}

  abbrev pub is_committed : Mode → Row F → Bool
  is_committed m r = (is_open r.status || is_pending r.status) && mode_eq r.mode m

  -- `committed_position_count`, with a mode
  unfoldable pub committed_position_count : List (Row F) → Mode → ℕ
  committed_position_count rows m = count_of (is_committed m) rows

  abbrev pub is_resting : Name → Mode → Row F → Bool
  is_resting symbol m r = name_eq r.symbol symbol && is_pending r.status && mode_eq r.mode m

  -- `has_pending_entry`, with a mode
  unfoldable pub has_pending_entry : List (Row F) → Name → Mode → Bool
  unfolding name_eq
  has_pending_entry rows symbol m = any_of (is_resting symbol m) rows

  abbrev pub stopped_since : ℕ → Note F → Bool
  stopped_since since blank = false
  stopped_since since (text t) = false
  stopped_since since (priced exit closed_ts pnl) = is_stop_exit exit && leb since closed_ts

  abbrev pub counts_as_loss : ℕ → Mode → Row F → Bool
  counts_as_loss since m r = is_closed r.status && stopped_since since r.error && mode_eq r.mode m

  abbrev pub pnl_of : Note F → List F
  pnl_of blank = []
  pnl_of (text t) = []
  pnl_of (priced exit closed_ts pnl) = pnl ∷ []

  abbrev pub pnls : List (Row F) → List F
  pnls [] = []
  pnls (r ∷ rows) = pnl_of r.error ++ pnls rows

  -- `realized_pnl_since`, with a mode
  unfoldable pub realized_pnl_since : List (Row F) → ℕ → Mode → F
  realized_pnl_since rows since m = fsum (pnls (keep (counts_as_loss since m) rows))

  -- `COALESCE(notional, entry*volume)`
  abbrev pub notional_of : Row F → F
  notional_of r = elim (r.notional) [ none ↦ mul r.entry r.volume | some n ↦ n ]

  -- `UPDATE orders SET ... WHERE id=?`
  unfoldable pub update_row : ℕ → (Row F → Row F) → List (Row F) → List (Row F)
  update_row i f rows = map (λ r. if r.id == i then f r else r) rows
