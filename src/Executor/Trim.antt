-- ===== src/Executor/Trim.antt =====
-- The deleverage governor of deepfield/executor.py: `_cancel_resting_bids`, `_cancel_pair_bids`,
-- `_reverse_gear` and `trim_pair`.
pub mod Account
pub mod Lots
pub mod Closes
pub mod Bounded
use oracle_deepfield.Base.{
  ℕ, zero, suc, Bool, true, false, not, ◌&&◌, ◌||◌, Option, none, some, List, [], ◌∷◌, ◌++◌, map,
  keep, take, length, if◌then◌else◌,
}
use oracle_deepfield.Base.Names.{Name, codes, name_eq}
use oracle_deepfield.Num.{Float}
use oracle_deepfield.Defense.Buffers.{should_trim}
use oracle_deepfield.Executor.Ledger.{mode_eq, canceled, is_pending, text, Row}
use oracle_deepfield.Executor.Rails.{armed}
use oracle_deepfield.Executor.Trim.Account.{PairKeys, liq_buffer, norm_pair_key, margin_level}
use oracle_deepfield.Executor.Trim.Lots.{
  Resting, Broker, Governor, Desk, is_lot, ranks_above, pick_trim_lot, close_lot,
}

abbrev pub buys_of : List Resting → List Name
buys_of [] = []
buys_of (o ∷ os) = if o.is_buy then o.txid ∷ buys_of os else buys_of os

abbrev pub is_bid_on : PairKeys → Name → Resting → Bool
is_bid_on keys key o = o.is_buy && name_eq (norm_pair_key keys o.pair) key

-- What `trim_pair` reports.
pub record Trimmed (F : Type 0) : Type 0 where
  pub closed : ℕ
  pub failed : ℕ
  pub bids_canceled : ℕ
  pub ml_before : Option F
  pub ml_after : Option F

module _ {F : Type 0} ⦃fl : Float F⦄ where
  open fl use {le}

  abbrev pub cancel_pending : (Row F → Bool) → Name → List (Row F) → List (Row F)
  cancel_pending mine why = map (λ r.
      if is_pending r.status && mine r then record r { status = canceled; error = text why } else r)

  -- The bids canceled, and their rows where there was any.
  abbrev pub cancel_bids_of : List Name → (Row F → Bool) → Name → Desk F → ℕ × Desk F
  cancel_bids_of [] mine why d = (0, d)
  cancel_bids_of (b ∷ bs) mine why d = (
    length (b ∷ bs),
    record d { orders = cancel_pending mine why d.orders; cancels = d.cancels ++ b ∷ bs },
  )

  -- `_cancel_resting_bids`
  unfoldable pub cancel_resting_bids : Governor F → Option (List Resting) → Desk F → ℕ × Desk F
  cancel_resting_bids g none d = (0, d)
  cancel_resting_bids g (some os) d =
      cancel_bids_of (buys_of os) (λ r. mode_eq r.mode g.mode)
        (codes "reverse-gear: bid canceled to stop re-lever") d

  -- `_cancel_pair_bids`
  unfoldable pub cancel_pair_bids : Governor F → Name → Option (List Resting) → Desk F → ℕ × Desk F
  unfolding name_eq norm_pair_key
  cancel_pair_bids g symbol none d = (0, d)
  cancel_pair_bids g symbol (some os) d =
      cancel_bids_of (buys_of (keep (is_bid_on g.keys (g.rest_of symbol)) os))
        (λ r. mode_eq r.mode g.mode && name_eq r.symbol symbol)
        (codes "operator trim: bid canceled to stop refill") d

  abbrev pub recovered : Governor F → Option F → Bool
  recovered g none = true
  recovered g (some b) = le g.target_pct b

  abbrev pub buffer_now : Governor F → Broker F → Desk F → Option F
  buffer_now g k d = liq_buffer (k.balance d.sent)

  -- One turn of the loop of `_reverse_gear`: the rest of it runs after a close that went through.
  unfoldable pub shed_lot :
      Governor F → Broker F → (Desk F → ℕ × Desk F) → Option (Row F) → Desk F → ℕ × Desk F
  unfolding close_lot
  shed_lot g k rest none d = (0, d)
  shed_lot g k rest (some lot) d =
      let (ok, after) = close_lot g k lot d in
      let (more, end) = rest after in if ok then (suc more, end) else (0, after)

  -- The loop, over the lots that a pass may shed: how many it closed.
  unfoldable pub shed : Governor F → Broker F → ℕ → Desk F → ℕ × Desk F
  unfolding liq_buffer pick_trim_lot shed_lot
  shed g k zero d = (0, d)
  shed g k (suc n) d =
      if recovered g (buffer_now g k d)
      then (0, d)
      else shed_lot g k (shed g k n) (pick_trim_lot g.mode d.orders) d

  -- `_reverse_gear`
  unfoldable pub reverse_gear : Governor F → Broker F → Desk F → ℕ × Desk F
  unfolding armed should_trim cancel_resting_bids shed liq_buffer
  reverse_gear g k d =
      if not (armed g.mode g.sim_attached) || not g.enabled
      then (0, d)
      else if not (should_trim (buffer_now g k d) g.trigger_pct)
      then (0, d)
      else shed g k g.max_lots
          (if g.cancel_bids then (cancel_resting_bids g k.open_orders d).1 else d)

  -- The lots of one pair, the largest first.
  unfoldable pub insert_lot : Row F → List (Row F) → List (Row F)
  unfolding ranks_above
  insert_lot r [] = r ∷ []
  insert_lot r (x ∷ xs) = if ranks_above x r then x ∷ insert_lot r xs else r ∷ x ∷ xs

  unfoldable pub lots_of : Governor F → Name → List (Row F) → List (Row F)
  unfolding insert_lot name_eq
  lots_of g symbol [] = []
  lots_of g symbol (r ∷ rows) =
      let rest = lots_of g symbol rows in
      if is_lot g.mode r && name_eq r.symbol symbol then insert_lot r rest else rest

  -- The loop of `trim_pair`: how many closed, how many failed, of which there is at most one.
  unfoldable pub close_all : Governor F → Broker F → List (Row F) → Desk F → (ℕ × ℕ) × Desk F
  unfolding close_lot
  close_all g k [] d = ((0, 0), d)
  close_all g k (lot ∷ lots) d =
      let (ok, after) = close_lot g k lot d in
      let ((n, failed), end) = close_all g k lots after in
      if ok then ((suc n, failed), end) else ((0, 1), after)

  abbrev pub first_lots : Option ℕ → List (Row F) → List (Row F)
  first_lots none lots = lots
  first_lots (some n) lots = take n lots

  abbrev pub nothing_trimmed : Trimmed F
  nothing_trimmed = record {
    closed = 0;
    failed = 0;
    bids_canceled = 0;
    ml_before = none;
    ml_after = none;
  }

  unfoldable pub trim_lots :
      Governor F → Broker F → Name → List (Row F) → Desk F → Trimmed F × Desk F
  unfolding close_all cancel_pair_bids margin_level
  trim_lots g k symbol [] d = (nothing_trimmed, d)
  trim_lots g k symbol (lot ∷ lots) d =
      let (bids, bare) = cancel_pair_bids g symbol k.open_orders d in
      let ((n, failed), end) = close_all g k (lot ∷ lots) bare in
      (
        record {
          closed = n;
          failed = failed;
          bids_canceled = bids;
          ml_before = margin_level (k.balance d.sent);
          ml_after = margin_level (k.balance end.sent);
        },
        end,
      )

  -- `trim_pair`
  unfoldable pub trim_pair : Governor F → Broker F → Name → Option ℕ → Desk F → Trimmed F × Desk F
  unfolding armed lots_of trim_lots
  trim_pair g k symbol max_lots d =
      if not (armed g.mode g.sim_attached)
      then (nothing_trimmed, d)
      else trim_lots g k symbol (first_lots max_lots (lots_of g symbol d.orders)) d
