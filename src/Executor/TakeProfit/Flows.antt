-- ===== src/Executor/TakeProfit/Flows.antt =====
-- `_poll_external_flows` of deepfield/app.py: what money that walks in or out of the account does to
-- the baseline, the trough, the peak and the flows of the cycle. The reply of the venue and the
-- verdict of `_reconcile_external_flow` are inputs; the cursor, the texts and a write that comes
-- between the read and the write are left out.
use oracle_deepfield.Base.{
  ℕ, Bool, not, ◌||◌, Option, none, some, List, [], ◌∷◌, ◌==◌, if◌then◌else◌,
}
use oracle_deepfield.Num.{Float, nought}
use oracle_deepfield.Executor.TakeProfit.{Book, Target, Pass, or_zero, check_take_profit}

-- The net of the ledger entries since the cursor, how many there were, and whether the net agrees
-- with the balance of the account.
pub record Flow (F : Type 0) : Type 0 where
  pub net : F
  pub count : ℕ
  pub reconciled : Bool

-- One turn of the program: a poll of the take-profit, or of the external flows with their reply.
pub data Turn (F : Type 0) : Type 0 where
  polled : Pass F → Turn F
  flowed : Option (Flow F) → Turn F

module _ {F : Type 0} ⦃fl : Float F⦄ where
  open fl use {add, lt, le, abs, round, dec}

  -- A sum that is not positive clears the field.
  abbrev pub shifted : F → F → F
  shifted x net = if le (add x net) nought then nought else round (add x net) 4

  -- The trough, which goes with the baseline where that is cleared.
  unfoldable pub shift_trough : F → F → Option F → Option F
  shift_trough baseline net trough =
      if lt nought (or_zero trough)
      then some (if le (add baseline net) nought then nought else shifted (or_zero trough) net)
      else trough

  unfoldable pub shift_peak : F → Option F → Option F
  shift_peak net peak = if lt nought (or_zero peak) then some (shifted (or_zero peak) net) else peak

  -- A flow of `net`; a baseline that is not armed is left, and so is all else.
  unfoldable pub shift_flow : F → Book F → Book F
  unfolding shift_trough shift_peak
  shift_flow net b = if le (or_zero b.tp_baseline) nought then b else record b {
    tp_baseline = some (shifted (or_zero b.tp_baseline) net);
    tp_trough = shift_trough (or_zero b.tp_baseline) net b.tp_trough;
    peak_equity = shift_peak net b.peak_equity;
    tp_cycle_flows = some (round (add (or_zero b.tp_cycle_flows) net) 4);
  }

  -- No entry, or a net under a cent.
  abbrev pub is_nothing : Flow F → Bool
  is_nothing f = f.count == 0 || lt (abs f.net) (dec 1 2)

  -- `_poll_external_flows` after its reply
  unfoldable pub poll_external_flows : Option (Flow F) → Book F → Book F
  unfolding shift_flow
  poll_external_flows none b = b
  poll_external_flows (some f) b =
      if is_nothing f || not f.reconciled then b else shift_flow f.net b

  unfoldable pub run_turns : Target F → List (Turn F) → Book F → Book F
  unfolding check_take_profit poll_external_flows
  run_turns g [] b = b
  run_turns g (polled p ∷ ts) b = run_turns g ts (check_take_profit g p b).1
  run_turns g (flowed f ∷ ts) b = run_turns g ts (poll_external_flows f b)
