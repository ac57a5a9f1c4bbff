-- ===== src/Executor/Lives.antt =====
-- The theorems on the life of a bid, the take-profit cycle, the governor and the rungs applied to
-- a small account.
use oracle_deepfield.Base.{List, ℕ, ◌≤◌, ◌≡◌, refl, true, false, none, some, [], ◌∷◌, arith}
use oracle_deepfield.Base.Names.{codes}
use oracle_deepfield.Num.{of_ℕ}
use oracle_deepfield.Num.Fixed.{Fixed, fixed, fixed-IsOrdered}
use oracle_deepfield.Executor.Ledger.{Row, is_pending, live}
use oracle_deepfield.Executor.Fills.{
  Report, Answers, unknown, done_closed, working, poll_row, poll_rows,
}
use oracle_deepfield.Executor.Fills.Agreement.{
  Agrees, Reach, here, next, drift, poll, works, final, lost, told, Reach-Agrees,
}
use oracle_deepfield.Executor.Fills.Resolution.{poll_run, poll_run-resolves}
use oracle_deepfield.Executor.Fills.Refunds.{refunded, dead_notionals, poll_rows-refunded}
use oracle_deepfield.Executor.TakeProfit.{Book, Target, Pass, check_take_profit}
use oracle_deepfield.Executor.TakeProfit.Flows.{Flow, Turn, polled, flowed, run_turns}
use oracle_deepfield.Executor.TakeProfit.Fires.{
  Owned, check_take_profit-red, check_take_profit-Owned,
}
use oracle_deepfield.Executor.Trim.Lots.{Broker, Governor, Desk}
use oracle_deepfield.Executor.Trim.{shed, reverse_gear}
use oracle_deepfield.Executor.Trim.Closes.{Sells, reverse_gear-Sells}
use oracle_deepfield.Executor.Trim.Bounded.{IsTaking, IsDone, shed-IsDone}
use oracle_deepfield.Executor.Samples.{config, reads, bid, lot, taken, pair_of_eth}

-- The order is filled while the first poll is lost, and the second poll sees it.
abbrev resting_order : Report Fixed
resting_order = record { status = working; vol_exec = of_ℕ 0 }

abbrev filled : Report Fixed
filled = record { status = done_closed; vol_exec = fixed.dec 2 2 }

abbrev silent : Answers Fixed
silent = record {
  batch = none;
  lookup = unknown;
  adopted = none;
  cancel_acked = false;
  settled = none;
}

abbrev answered : Answers Fixed
answered = record silent { batch = some filled }

abbrev bought : Row Fixed
bought = (poll_row config reads 86_400 answered bid).0

two_polls : Reach config 86_400 (resting_order, bid) (filled, bought)
two_polls =
    next (next here (drift (works refl)))
      (poll reads answered refl told (final refl) lost (final refl))

Reach-Agrees_example : Agrees (filled, bought)
Reach-Agrees_example =
    Reach-Agrees config 86_400 resting_order bid (codes "TX") (filled, bought) refl refl two_polls

poll_run-resolves_example :
    is_pending (poll_run config 86_400 ((reads, silent) ∷ (reads, answered) ∷ []) bid).status
    ≡ false
poll_run-resolves_example =
    poll_run-resolves config 86_400 ((reads, silent) ∷ (reads, answered) ∷ []) bid (codes "TX") refl
      refl

poll_rows-refunded_example :
    refunded (poll_rows config reads 86_400 (λ r. answered) (bid ∷ lot ∷ [])).1
    ≡ dead_notionals config reads 86_400 (λ r. answered) (bid ∷ lot ∷ [])
poll_rows-refunded_example = poll_rows-refunded config reads 86_400 (λ r. answered) (bid ∷ lot ∷ [])

abbrev target : Target Fixed
target = record { tp_enabled = true; tp_pct = fixed.dec 20 2; floor_baseline = true }

abbrev armed_book : Book Fixed
armed_book = record {
  tp_baseline = some (of_ℕ 100);
  tp_trough = some (of_ℕ 100);
  tp_cycle_flows = some (of_ℕ 0);
  tp_flatten_active = false;
  peak_equity = some (of_ℕ 110);
  cycles = [];
  trough_noted = none;
}

abbrev pass_at : ℕ → Pass Fixed
pass_at e = record {
  armed = true;
  equity = some (of_ℕ e);
  ran = true;
  complete = true;
  settled = some (of_ℕ e);
}

check_take_profit-red_example :
    let after = (check_take_profit target (pass_at 90) armed_book).1 in
    (after.tp_flatten_active ≡ false) × (after.cycles ≡ [])
check_take_profit-red_example =
    check_take_profit-red fixed-IsOrdered target (pass_at 90) armed_book (of_ℕ 90) refl refl refl
      refl refl

abbrev flattening : Book Fixed
flattening = record armed_book { tp_flatten_active = true }

check_take_profit-Owned_example :
    Owned (pass_at 121) flattening (check_take_profit target (pass_at 121) flattening).1
check_take_profit-Owned_example =
    check_take_profit-Owned target (pass_at 121) flattening refl refl refl

-- A deposit of 20 while the cycle runs: 121 is under the target that has moved with it, 150 is not.
abbrev deposit : Flow Fixed
deposit = record { net = of_ℕ 20; count = 1; reconciled = true }

abbrev turns : List (Turn Fixed)
turns =
    polled (pass_at 90)
    ∷ flowed (some deposit)
    ∷ polled (pass_at 121)
    ∷ polled (pass_at 150)
    ∷ flowed none
    ∷ []

deposit_shifts_the_cycle :
    (run_turns target turns armed_book).cycles
    ≡ (record {
      baseline = of_ℕ 120;
      settled = of_ℕ 150;
      flows = of_ℕ 20;
      profit = of_ℕ 30;
      off_trough = true;
    })
      ∷ []
unfolding run_turns oracle_deepfield.Base.Int.◌-ℤ◌ oracle_deepfield.Base.Int.div_ℕ
    oracle_deepfield.Base.Int.◌*ℤ◌ oracle_deepfield.Base.Int.◌+ℤ◌ oracle_deepfield.Num.Fixed.rounded
deposit_shifts_the_cycle = refl

abbrev governor : Governor Fixed
governor = record {
  mode = live;
  sim_attached = false;
  enabled = true;
  trigger_pct = of_ℕ 8;
  target_pct = of_ℕ 12;
  max_lots = 4;
  cancel_bids = true;
  pair_info = λ s. pair_of_eth;
  rest_of = λ s. codes "XETHZUSD";
  keys = record { rest_keys = codes "XETHZUSD" ∷ []; alt_to_key = [] };
}

-- A venue that always shows one long and a thin account, and takes every order.
abbrev venue : Broker Fixed
venue = record {
  positions = λ s. some (
      record {
        pair = codes "XETHZUSD:BTNL";
        is_sell = false;
        vol = some (of_ℕ 1);
        vol_closed = some (of_ℕ 0);
      }
      ∷ []);
  balance = λ s. some (record {
    e = some (of_ℕ 100);
    eb = none;
    tb = none;
    m = some (of_ℕ 200);
    v = some (of_ℕ 1000);
  });
  open_orders = some [];
  reply = λ s q. taken;
}

abbrev desk : Desk Fixed
desk = record { orders = bid ∷ lot ∷ []; sent = []; cancels = [] }

reverse_gear-Sells_example :
    (m : ℕ) × ((m ≤ 4) × Sells governor venue desk m (reverse_gear governor venue desk).1)
reverse_gear-Sells_example = reverse_gear-Sells fixed-IsOrdered governor venue desk

venue-IsTaking : IsTaking venue
venue-IsTaking = record { shows = λ s. (_, refl); takes = λ s q. (_, refl) }

shed-IsDone_example : IsDone governor venue (shed governor venue 4 desk).1
shed-IsDone_example = shed-IsDone governor venue 4 desk venue-IsTaking (omega arith)
