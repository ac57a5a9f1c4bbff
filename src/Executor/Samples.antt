-- ===== src/Executor/Samples.antt =====
-- A small account for the tests of the executor: one pair, one bid, one position.
use oracle_deepfield.Base.{true, false, none, some, [], ◌∷◌}
use oracle_deepfield.Base.Names.{Name, codes}
use oracle_deepfield.Num.{of_ℕ}
use oracle_deepfield.Num.Fixed.{Fixed, fixed}
use oracle_deepfield.Executor.Ledger.{live, pending, open_, blank, Row}
use oracle_deepfield.Executor.Rails.{Limits, Session}
use oracle_deepfield.Executor.Sizing.{PairInfo, SizeConfig, min_size}
use oracle_deepfield.Executor.Bucket.{Pace}
use oracle_deepfield.Executor.Venue.{Reply, Config, Reads, World}

abbrev pub eth : Name
eth = codes "ETH/USD"

abbrev pub limits : Limits Fixed
limits = record {
  rails_enabled = true;
  max_open_positions = 5;
  kill_switch_dd_pct = fixed.dec 20 2;
  daily_loss_limit_usd = of_ℕ 15;
  weekly_loss_limit_usd = of_ℕ 35;
  rails_tight_pct = of_ℕ 15;
}

abbrev pub pace : Pace Fixed
pace = record { budget_usd_per_hr = of_ℕ 15; burst_usd = of_ℕ 60 }

abbrev pub pair_of_eth : PairInfo Fixed
pair_of_eth = record { ordermin = fixed.dec 2 2; costmin = of_ℕ 1; lot_decimals = some 2 }

abbrev pub flat_sizes : SizeConfig Fixed
flat_sizes = record {
  size_mode = min_size;
  size_mult = of_ℕ 1;
  risk_pct = fixed.dec 2 2;
  margin_cap_pct = fixed.dec 90 2;
  max_order_notional_usd = of_ℕ 50;
}

abbrev pub config : Config Fixed
config = record {
  margin_pair = (eth, codes "ETH/USD:BTNL") ∷ [];
  excluded_pairs = [];
  regime_gate = record { only_in_bear = true; blocked = codes "BULL" ∷ [] };
  limits = limits;
  per_pair_leverage = (eth, of_ℕ 5) ∷ [];
  sizes = flat_sizes;
  pace = pace;
  limit_entries = true;
  post_only_slip_pct = fixed.dec 1 3;
  tick_decimals = (eth, 2) ∷ [];
  protective_stop = true;
  paper_portfolio_usd = of_ℕ 100;
}

-- Every order is taken.
abbrev pub taken : Reply
taken = record { result = some (some (codes "TX")); definite = true; descr = [] }

abbrev pub reads : Reads Fixed
reads = record {
  mode = live;
  sim_attached = false;
  halt_file = false;
  regime = some (codes "BEAR");
  pair_info = λ s. pair_of_eth;
  distances = λ s. record { tp_pct = of_ℕ 4; sl_pct = of_ℕ 8; rung_pct = of_ℕ 2 };
  balance = some (of_ℕ 200);
  reply = λ q. taken;
  now = 2_000_000;
  checked_at = of_ℕ 2000;
  debited_at = of_ℕ 2001;
  new_userref = 7;
  paper_txid = codes "PAPER";
  paper_stop_txid = λ i. codes "PAPER-STOP";
}

abbrev pub bid : Row Fixed
bid = record {
  id = 1;
  ts = 1_999_000;
  symbol = eth;
  margin_pair = codes "ETH/USD:BTNL";
  mode = live;
  entry = of_ℕ 100;
  stop = of_ℕ 92;
  stop_prot = none;
  volume = fixed.dec 2 2;
  leverage = of_ℕ 5;
  notional = some (of_ℕ 2);
  margin = fixed.dec 4 1;
  risk_usd = fixed.dec 16 2;
  score = none;
  required = none;
  txid = some (codes "TX");
  stop_txid = none;
  close_txid = none;
  status = pending;
  error = blank;
  userref = some 6;
  tp_pct = of_ℕ 4;
  sl_pct = of_ℕ 8;
  rung_pct = of_ℕ 2;
}

abbrev pub lot : Row Fixed
lot = record bid { id = 2; status = open_; stop_txid = some (codes "STOP") }

abbrev pub world : World Fixed
world = record {
  orders = lot ∷ [];
  next_id = 3;
  peak_equity = some (of_ℕ 210);
  bucket = none;
  sent = [];
}

abbrev pub session : Session Fixed
session = record {
  mode = live;
  sim_attached = false;
  halt_file = false;
  peak_equity = some (of_ℕ 210);
  now = 2_000_000;
  orders = bid ∷ lot ∷ [];
}
