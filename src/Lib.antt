-- ===== src/Lib.antt =====
-- DEEPFIELD: the executor of entries, take-profit and deleveraging, the scoring core, the simulated
-- exchange, the liquidation buffers and the volatility distances of the bot, and the candle table
-- they read.
--
-- The program. deepfield/engine.py scores a pair from its weekly and daily candles with the seven
-- signals of deepfield/signals.py, which read the averages of deepfield/indicators.py under the
-- switches of deepfield/profiles.py. In paper mode every private call of the venue is answered by
-- deepfield/paper_broker.py, which keeps orders, lots, a ledger and cash, and settles them against
-- the candles before each answer. deepfield/defense.py turns the balance of the account into the
-- price distance to liquidation and decides which alerts to raise and when to trim.
-- deepfield/vol.py gives every pair its take-profit, stop and rung distances from its daily candles.
-- The candles stand in a table of deepfield/store.py, which deepfield/reconciler.py repairs from the
-- venue's replies. deepfield/executor.py is the money path: it gates, sizes and places an entry in
-- the orders table of deepfield/store.py, polls its resting bids until the venue has settled them,
-- continues the ladder of a chain that filled, closes the whole book at the take-profit, and sells
-- lots when the buffer of deepfield/defense.py is breached. Its stops and rungs stand at the
-- distances of deepfield/vol.py, and it sends to the venue, or to the simulated exchange, through
-- deepfield/broker.py. deepfield/ingest.py closes the bars of the table, on the feed's word or on
-- the clock with a REST confirm, and lets each close instant of a pair fire once.
--
-- The files.
--   Base, Num            Shared tests, lists and names; Python's floats as an interface.
--   Paper.Types          The four tables of deepfield/paper_broker.py and the parameters of a call.
--   Paper.Book           `_symbol_for`, `_bar`, `_last_price`, `_credit`, `_long_open_vol`,
--                        `_close_longs`, `_fill`.
--   Paper.Settle         `_settle_one` and the loop of `_settle`.
--   Paper.Rollover       `_accrue_rollover` and `_settle`.
--   Paper.Placement      `_add_order`.
--   Paper.Views          `_order_view`, `_positions_view`, `_trade_balance`.
--   Paper.Exchange       `_handle`, `_dispatch`, the book that `attach` seeds, and runs of calls.
--   Paper.Cases, Rows    The branches of an operation as rules, and the order table over time.
--   Paper.Audit          `audit`.
--   Paper.Accounting, Pricing, Lots, Sells, Acceptance, Cancels, Lifecycle, Completion, Runs
--                        The theorems on the exchange, by what they are about.
--   Defense.Buffers      `compute`, `tier_for`, `step`, `stress_buffer`, `max_survivable_leverage`,
--                        `should_trim`.
--   Defense.Basket       `basket_index`, `basket_drawdown`, `worst_move`.
--   Defense.Moves, Escalation, Stress
--                        The theorems on them.
--   Scoring.Indicators   `clean`, `calc_ema`, `calc_rsi`, `calc_macd`, `calc_sma`.
--   Scoring.Signals      `sig1_below_wema200` to `sig7_near_52w_low`, `find_bullish_divergence`.
--   Scoring.Engine       `_required`, `_sig6`, `evaluate`, `tranche`, `is_stale`, `should_alert`.
--   Scoring.Gaps         `_gap_metrics`.
--   Scoring.Regime       `monthly_closes` and `regime`, with the theorems on them.
--   Scoring.Warmup, Strictness, Divergence, Cards, Shown
--                        The theorems on the scoring.
--   Vol.Ruling, Table    `atr_pct`, `sane_atr`, `resolve`, `should_ship`; `fallback_for`,
--                        `build_table`, `distances`.
--   Vol.Bounds           The theorems on them.
--   Candles.Table        The candles table of deepfield/store.py: `upsert_candle`, `flip_closed`,
--                        `max_ts`, `get_forming`, `load_weekly_daily_closed` and the like.
--   Candles.Heal         `gap_heal` of deepfield/reconciler.py.
--   Candles.Series, Repairs, Convergence
--                        The theorems on them.
--   Executor.Ledger      The orders table of deepfield/store.py: `insert_order`, `update_order`,
--                        `has_pending_entry` and the counts and sums over it.
--   Executor.Venue       The requests and replies, the configuration, `_tick_round`, `_vol_str`.
--   Executor.Rails       `tp_target`, `_armed`, `_update_peak`, `portfolio_value`, `rails_ok`,
--                        `rails_detail`.
--   Executor.Sizing      `_round_down`, `_min_volume`, `compute_stop`, `_row_tp_pct`,
--                        `_notional_ceiling_ok`, `_owns_level_near`, `size`, `plan`.
--   Executor.Bucket      `_respend_tokens_now`, `_respend_budget_ok` and its `_debit`,
--                        `_respend_credit`, `_respend_would_refuse`.
--   Executor.Gates       `_accumulation_allowed`, `_stack_margin_ok`, `_note_stack_pause`,
--                        `_at_ladder_floor`, `_service_order`.
--   Executor.Entry       `place_entry`, `_place_entry`.
--   Executor.Fills       `poll_fills`, `_resolve_ambiguous_entry`, `_entry_ttl_expired`,
--                        `_rest_stop`.
--   Executor.Rung        `_place_ladder_rung`.
--   Executor.Chains      `_seed_chains`, `_ensure_ladder_rungs`.
--   Executor.TakeProfit  `_check_take_profit`; in Flows what `_poll_external_flows` of
--                        deepfield/app.py does to the baseline.
--   Executor.Trim        `_reverse_gear`, `trim_pair`, `_cancel_resting_bids`,
--                        `_cancel_pair_bids`; in Account `equity` of deepfield/broker.py,
--                        `_liq_buffer`, `_margin_level`, `_pair_net_long`; in Lots `_close_lot`,
--                        `_pick_trim_lot`.
--   The other files under Executor
--                        The theorems on them, and Samples, Tests and Lives with small accounts.
--   Ingest               `handle_candle_closed`, `apply_rest_confirm`, `find_overdue`,
--                        `_advance_countdown` and one turn of `clock_close_watchdog` of
--                        deepfield/ingest.py; in Closes the theorems on them.
--
-- How it is modelled. Every definition takes the float arithmetic as an instance argument, so it
-- runs on any arithmetic with the source's operations; the theorems name the laws of comparison
-- and of scaling that they use (Num.Laws), which hold of doubles with NaN and the infinities, and
-- Num.Fixed is a decimal arithmetic that meets them, for the tests. `-x` is written 0 - x, which
-- differs in the sign of a zero only. A text that `float` refuses is `none`. Times are natural
-- numbers in one unit. One call of the exchange reads the clock once; its candles are a list, its
-- random ids the n-th values of a generator, and its configuration fields of the environment. The
-- cash, which the source stores as a text that gives the same float back, is a number. The fetch
-- of a heal pass and its clock are functions. A loop is recursion on the list it walks, so no fuel
-- is needed; the governor runs at most REVERSE_GEAR_MAX_LOTS_PER_PASS turns in the source, and
-- that number is what its model recurses on. A lot is found by the id that its row has.
--
-- The executor. What the venue answers is a parameter: the reply to a request may depend on the
-- request and, in the governor, on the requests already sent; the answers of one poll, a lost one
-- included, are a record. Fills.Agreement runs the polls against a venue that moves by steps of
-- its own. A reply has a txid, or none, with the flag of the exception that tells a definite
-- refusal from an ambiguous one. Row times and the clock of the polls are in seconds; the clock of
-- the respend bucket is a number of the arithmetic, as in the source. Rounding down to a lot is
-- `math.floor`, built from the ceiling of the arithmetic; no law of it is assumed but the ones a
-- theorem names. The next rung after a fill is an effect with a name, which Executor.Rung defines;
-- what `_flatten_all` reports of its pass is an input of the take-profit. A run of the take-profit
-- is a list of turns, each a poll or an external flow, in any order; the reply with the flow and
-- the verdict of `_reconcile_external_flow` are inputs, and no write comes between a read and its
-- write. A pass over the pairs has its reads per symbol, since each entry draws its own client
-- order id and its own time.
--
-- Not modelled. Of the executor: `_flatten_all`, `_check_rung_harvest`, `verify_open_stops`,
-- `_reprotect_naked_open`, `_adopt_surplus`, `growth_detail`, `_migrate_vol_distances` and the
-- paths that only read for the displays; the journal, the log lines and the exceptions that are
-- swallowed. Of the rest: deepfield/app.py but for the shift by an external flow; the requests of
-- deepfield/broker.py other than `equity`, the other tables of the store and its locks, the feed
-- but for the closing of bars, the network clients, the displays and the configuration file; texts
-- and number formats; exceptions that the code logs and swallows while it settles one order;
-- `summary` of the simulated exchange and its attaching to the broker; `candle_close_age` of the
-- engine; and the stored form of the volatility table.
pub mod Base
pub mod Num
pub mod Paper
pub mod Defense
pub mod Executor
pub mod Scoring
pub mod Vol
pub mod Candles
pub mod Ingest
