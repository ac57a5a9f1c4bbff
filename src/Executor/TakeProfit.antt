-- ===== src/Executor/TakeProfit.antt =====
-- `_check_take_profit` of deepfield/executor.py: the arming, the trough ratchet, the fire and the
-- settlement of a cycle. What `_flatten_all` reports of its pass, and the equity that is read before
-- and after it, are inputs; a stored text that is missing or no number is none.
pub mod Flows
pub mod Ledger
pub mod Fires
use oracle_deepfield.Base.{
  Bool, true, false, not, ◌&&◌, ◌||◌, Option, none, some, List, [], ◌∷◌, ◌++◌, if◌then◌else◌,
}
use oracle_deepfield.Num.{Float, nought}
use oracle_deepfield.Executor.Rails.{tp_target}

-- A row of tp_cycles; the note says whether the target was the trough's.
pub record Cycle (F : Type 0) : Type 0 where
  pub baseline : F
  pub settled : F
  pub flows : F
  pub profit : F
  pub off_trough : Bool

-- The keys of meta, the ledger of cycles, and the last trough that was journaled.
pub record Book (F : Type 0) : Type 0 where
  pub tp_baseline : Option F
  pub tp_trough : Option F
  pub tp_cycle_flows : Option F
  pub tp_flatten_active : Bool
  pub peak_equity : Option F
  pub cycles : List (Cycle F)
  pub trough_noted : Option F

pub record Target (F : Type 0) : Type 0 where
  pub tp_enabled : Bool
  pub tp_pct : F
  pub floor_baseline : Bool

-- One poll: whether the mode is armed, the equity before, what the flatten reports, and the equity
-- after.
pub record Pass (F : Type 0) : Type 0 where
  pub armed : Bool
  pub equity : Option F
  pub ran : Bool
  pub complete : Bool
  pub settled : Option F

module _ {F : Type 0} ⦃fl : Float F⦄ where
  open fl use {sub, mul, lt, le, dec}

  abbrev pub or_zero : Option F → F
  or_zero none = nought
  or_zero (some x) = x

  -- `portfolio_value` in an armed mode, which stores a new peak
  unfoldable pub see_equity : Option F → Book F → Book F
  see_equity none b = b
  see_equity (some e) b =
      if lt (or_zero b.peak_equity) e then record b { peak_equity = some e } else b

  abbrev pub arm : F → Book F → Book F
  arm e b = record b {
    tp_baseline = some e;
    tp_trough = some e;
    tp_cycle_flows = some nought;
    trough_noted = none;
  }

  -- The stored trough, or the baseline where it is missing, not positive or above the baseline.
  unfoldable pub trough_of : F → Book F → F
  trough_of baseline b =
      let t = or_zero b.tp_trough in if le t nought || lt baseline t then baseline else t

  -- half a cent under the trough
  unfoldable pub ratchets : F → F → Bool
  ratchets trough e = lt e (sub trough (dec 5 3))

  abbrev pub noted : F → Option F → Option F
  noted trough none = some trough
  noted trough (some last) = if le trough (mul last (dec 99 2)) then some trough else some last

  abbrev pub ratchet : F → Book F → Book F
  ratchet e b = record b { tp_trough = some e; trough_noted = noted e b.trough_noted }

  -- `0 < trough < baseline - 0.005`
  abbrev pub fired_off_trough : F → Book F → Bool
  fired_off_trough baseline b =
      lt nought (or_zero b.tp_trough) && lt (or_zero b.tp_trough) (sub baseline (dec 5 3))

  -- A cycle that is complete: its row, and the next baseline.
  unfoldable pub settle : F → F → Book F → Book F
  settle baseline e b = record b {
    tp_baseline = some e;
    tp_trough = some e;
    tp_cycle_flows = some nought;
    tp_flatten_active = false;
    peak_equity = some e;
    cycles =
        b.cycles
        ++ (record {
          baseline = baseline;
          settled = e;
          flows = or_zero b.tp_cycle_flows;
          profit = sub e baseline;
          off_trough = fired_off_trough baseline b;
        })
          ∷ [];
    trough_noted = none;
  }

  abbrev pub settle_read : F → Option F → Book F → Bool × Book F
  settle_read baseline none b = (true, b)
  settle_read baseline (some e) b = (true, settle baseline e (see_equity (some e) b))

  -- The pass of a flatten that owns the book.
  unfoldable pub flatten_pass : Pass F → F → Book F → Bool × Book F
  unfolding settle see_equity
  flatten_pass p baseline b =
      if not p.ran
      then (false, b)
      else if not p.complete
      then (true, b)
      else settle_read baseline p.settled b

  -- The trough after this equity, and the book that stores it.
  abbrev pub low_of : F → F → F
  low_of trough e = if ratchets trough e then e else trough

  abbrev pub ratcheted : F → F → Book F → Book F
  ratcheted trough e b = if ratchets trough e then ratchet e b else b

  -- The equity against the target.
  unfoldable pub judge : Target F → Pass F → F → F → Book F → Bool × Book F
  unfolding trough_of ratchets tp_target flatten_pass
  judge g p baseline e b =
      let trough = trough_of baseline b in
      let b1 = ratcheted trough e b in
      if lt e (tp_target g.tp_pct g.floor_baseline baseline (low_of trough e))
      then (false, b1)
      else flatten_pass p baseline (record b1 { tp_flatten_active = true })

  unfoldable pub watch : Target F → Pass F → Option F → Book F → Bool × Book F
  unfolding judge
  watch g p none b = (false, b)
  watch g p (some e) b =
      if le (or_zero b.tp_baseline) nought
      then (false, arm e b)
      else judge g p (or_zero b.tp_baseline) e b

  -- `_check_take_profit`
  unfoldable pub check_take_profit : Target F → Pass F → Book F → Bool × Book F
  unfolding watch flatten_pass see_equity
  check_take_profit g p b =
      if not p.armed || not g.tp_enabled
      then (false, b)
      else (let seen = see_equity p.equity b in
          if b.tp_flatten_active
          then flatten_pass p (or_zero b.tp_baseline) seen
          else watch g p p.equity seen)
