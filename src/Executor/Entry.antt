-- ===== src/Executor/Entry.antt =====
-- `place_entry` and `_place_entry` of deepfield/executor.py: the gates of an entry in their order,
-- the row that is recorded and the orders that are sent. The broker's reply is a parameter of the
-- model; the log, the journal and the exceptions that `place_entry` swallows are not modelled.
pub mod Gated
pub mod Recorded
use oracle_deepfield.Base.{
  ℕ, Bool, true, false, not, ◌&&◌, Option, none, some, any_of, if◌then◌else◌,
}
use oracle_deepfield.Base.Names.{Name, codes, name_eq, name_lookup}
use oracle_deepfield.Num.{Float, nought, of_ℕ}
use oracle_deepfield.Executor.Ledger.{pending, open_, rejected, validated, Note, blank, text, Row}
use oracle_deepfield.Executor.Rails.{rails_ok, portfolio_value}
use oracle_deepfield.Executor.Sizing.{Sizing, Conviction, size, compute_stop, notional_ceiling_ok}
use oracle_deepfield.Executor.Bucket.{respend_budget_ok, debit}
use oracle_deepfield.Executor.Gates.{accumulation_allowed}
use oracle_deepfield.Executor.Venue.{
  Side, buys, Request, Reply, Targets, Config, Reads, World, is_paper, is_validate, is_off, landed,
  tick_round, vol_str, session_of, insert_order, send,
}

-- An entry that passed its gates.
pub record Ticket (F : Type 0) : Type 0 where
  pub symbol : Name
  pub pair : Name
  pub leverage : F
  pub price : F
  pub stop : F
  pub sizing : Sizing F
  pub targets : Targets F
  pub card : Option Conviction
  pub respend : Bool

abbrev pub score_of : Option Conviction → Option ℕ
score_of none = none
score_of (some c) = some c.score

abbrev pub required_of : Option Conviction → Option ℕ
required_of none = none
required_of (some c) = some c.required

module _ {F : Type 0} ⦃fl : Float F⦄ where
  open fl use {sub, mul, eq}

  -- The price of the bid: a post-only limit rests just below the last price.
  unfoldable pub bid_price : Config F → Name → F → F
  unfolding tick_round
  bid_price cfg symbol price =
      tick_round cfg.tick_decimals symbol
        (if cfg.limit_entries then mul price (sub (of_ℕ 1) cfg.post_only_slip_pct) else price)

  unfoldable pub entry_row : Config F → Reads F → Ticket F → Row F
  unfolding bid_price tick_round
  entry_row cfg r t = record {
    id = 0;
    ts = r.now;
    symbol = t.symbol;
    margin_pair = t.pair;
    mode = r.mode;
    entry = bid_price cfg t.symbol t.price;
    stop = tick_round cfg.tick_decimals t.symbol t.stop;
    stop_prot = none;
    volume = t.sizing.volume;
    leverage = t.leverage;
    notional = some t.sizing.notional;
    margin = t.sizing.margin;
    risk_usd = t.sizing.actual_risk;
    score = score_of t.card;
    required = required_of t.card;
    txid = none;
    stop_txid = none;
    close_txid = none;
    status = pending;
    error = blank;
    userref = some r.new_userref;
    tp_pct = t.targets.tp_pct;
    sl_pct = t.targets.sl_pct;
    rung_pct = t.targets.rung_pct;
  }

  unfoldable pub entry_request : Config F → Reads F → Ticket F → Bool → Request F
  unfolding bid_price vol_str
  entry_request cfg r t checking = record {
    pair = t.pair;
    side = buys;
    ordertype = if cfg.limit_entries then codes "limit" else codes "market";
    volume = vol_str (r.pair_info t.symbol) t.sizing.volume;
    leverage = t.leverage;
    price = if cfg.limit_entries then some (bid_price cfg t.symbol t.price) else none;
    post_only = cfg.limit_entries;
    validate_only = checking;
    userref = if checking then none else some r.new_userref;
  }

  -- Paper without a simulated exchange: the row is open at once, with a stop that never triggers.
  unfoldable pub annotate : Config F → Reads F → Ticket F → World F → Option ℕ × World F
  unfolding entry_row insert_order
  annotate cfg r t w =
      insert_order
        (record (entry_row cfg r t) {
          txid = some r.paper_txid;
          status = open_;
          stop_txid = if cfg.protective_stop then some (r.paper_stop_txid w.next_id) else none;
        })
        w

  -- Validate: the venue checks the order and executes nothing.
  unfoldable pub send_validate : Config F → Reads F → Ticket F → World F → Option ℕ × World F
  unfolding entry_row entry_request insert_order
  send_validate cfg r t w =
      let q = entry_request cfg r t true in
      let answer = r.reply q in
      let row = entry_row cfg r t in
      insert_order
        (elim (answer.result) [
          | none ↦ record row { status = rejected; error = text answer.descr }
          | some x ↦ record row { status = validated; txid = some answer.descr }
        ])
        (send q w)

  abbrev pub spend : Config F → Reads F → Ticket F → World F → World F
  spend cfg r t w = record w {
    bucket = if t.respend then debit cfg.pace t.sizing.notional r.debited_at w.bucket else w.bucket;
  }

  abbrev pub ambiguous_note : Note F
  ambiguous_note = text (codes "ambiguous AddOrder (network) — resolving by userref")

  -- The row of a live entry whose bid rests, whose fate is unknown, and which was refused.
  abbrev pub resting_row : Config F → Reads F → Ticket F → Name → Row F
  resting_row cfg r t given = record (entry_row cfg r t) { txid = some given }

  abbrev pub ambiguous_row : Config F → Reads F → Ticket F → Row F
  ambiguous_row cfg r t = record (entry_row cfg r t) { error = ambiguous_note }

  abbrev pub rejected_row : Config F → Reads F → Ticket F → Row F
  rejected_row cfg r t = record (entry_row cfg r t) {
    status = rejected;
    error = text (codes "no txid from AddOrder");
  }

  -- What a live entry records under each answer, and the debit where the bid rests.
  unfoldable pub record_answer :
      Config F → Reads F → Ticket F → Option Name → Bool → World F → Option ℕ × World F
  unfolding entry_row insert_order debit
  record_answer cfg r t (some given) definite w =
      insert_order (resting_row cfg r t given) (spend cfg r t w)
  record_answer cfg r t none false w = insert_order (ambiguous_row cfg r t) w
  record_answer cfg r t none true w = insert_order (rejected_row cfg r t) w

  unfoldable pub send_live : Config F → Reads F → Ticket F → World F → Option ℕ × World F
  unfolding entry_request record_answer
  send_live cfg r t w =
      let q = entry_request cfg r t false in
      let answer = r.reply q in record_answer cfg r t (landed answer) answer.definite (send q w)

  unfoldable pub submit : Config F → Reads F → Ticket F → World F → Option ℕ × World F
  unfolding annotate send_validate send_live
  submit cfg r t w =
      if is_paper r.mode && not r.sim_attached
      then annotate cfg r t w
      else if is_validate r.mode
      then send_validate cfg r t w
      else send_live cfg r t w

  -- The respend budget, for seeds only.
  unfoldable pub budgeted : Config F → Reads F → Ticket F → World F → Option ℕ × World F
  unfolding respend_budget_ok submit
  budgeted cfg r t w =
      if t.respend
      then (let (ok, b) = respend_budget_ok cfg.pace t.sizing.notional r.checked_at w.bucket in
          if ok then submit cfg r t (record w { bucket = b }) else (none, record w { bucket = b }))
      else submit cfg r t w

  unfoldable pub checked_ceiling : Config F → Reads F → Ticket F → World F → Option ℕ × World F
  unfolding notional_ceiling_ok budgeted
  checked_ceiling cfg r t w =
      if notional_ceiling_ok cfg.sizes t.sizing then budgeted cfg r t w else (none, w)

  abbrev pub ticket_of :
      Reads F → Name → Name → F → Option Conviction → Bool → F → F → Sizing F → Ticket F
  ticket_of r symbol pair price card respend leverage stop sizing = record {
    symbol = symbol;
    pair = pair;
    leverage = leverage;
    price = price;
    stop = stop;
    sizing = sizing;
    targets = r.distances symbol;
    card = card;
    respend = respend;
  }

  -- What is sized, or nothing.
  unfoldable pub ticketed :
      Config F
      → Reads F
      → Name
      → Name
      → F
      → Option Conviction
      → Bool
      → F
      → F
      → Option (Sizing F)
      → World F
      → Option ℕ × World F
  unfolding checked_ceiling
  ticketed cfg r symbol pair price card respend leverage stop none w = (none, w)
  ticketed cfg r symbol pair price card respend leverage stop (some sizing) w =
      checked_ceiling cfg r (ticket_of r symbol pair price card respend leverage stop sizing) w

  abbrev pub stop_of : Reads F → Name → F → F
  stop_of r symbol price =
      let sl_pct = (r.distances symbol).sl_pct in compute_stop sl_pct price (some sl_pct)

  -- From the leverage, which is fixed for the pair, to the stop and the sizing.
  unfoldable pub levered :
      Config F
      → Reads F
      → Name
      → Name
      → F
      → Option Conviction
      → Bool
      → Option F
      → Option F
      → World F
      → Option ℕ × World F
  unfolding compute_stop size ticketed
  levered cfg r symbol pair price card respend equity none w = (none, w)
  levered cfg r symbol pair price card respend equity (some leverage) w =
      let stop = stop_of r symbol price in
      ticketed cfg r symbol pair price card respend leverage stop
        (size cfg.sizes (r.pair_info symbol) price stop leverage equity card) w

  -- A leverage of 0 is none.
  abbrev pub leverage_of : Config F → Name → Option F
  leverage_of cfg symbol = elim (name_lookup symbol cfg.per_pair_leverage) [
    | none ↦ none
    | some lev ↦ if eq lev nought then none else some lev
  ]

  -- From the equity, whose peak is stored, to the rails.
  unfoldable pub railed :
      Config F → Reads F → Name → Name → F → Option Conviction → Bool → World F → Option ℕ × World F
  unfolding portfolio_value rails_ok levered
  railed cfg r symbol pair price card respend w =
      let (equity, s) = portfolio_value cfg.paper_portfolio_usd r.balance (session_of r w) in
      let w1 = record w { peak_equity = s.peak_equity } in
      if (rails_ok cfg.limits s equity).0
      then levered cfg r symbol pair price card respend equity (leverage_of cfg symbol) w1
      else (none, w1)

  -- From the margin pair to the regime.
  unfoldable pub paired :
      Config F
      → Reads F
      → Name
      → Option Name
      → F
      → Option Conviction
      → Bool
      → World F
      → Option ℕ × World F
  unfolding accumulation_allowed railed name_eq
  paired cfg r symbol none price card respend w = (none, w)
  paired cfg r symbol (some pair) price card respend w =
      if any_of (name_eq symbol) cfg.excluded_pairs
      then (none, w)
      else if not (accumulation_allowed cfg.regime_gate r.regime)
      then (none, w)
      else railed cfg r symbol pair price card respend w

  -- `_place_entry`
  unfoldable pub place_entry_checked :
      Config F → Reads F → Name → F → Option Conviction → Bool → World F → Option ℕ × World F
  unfolding paired
  place_entry_checked cfg r symbol price card respend w =
      paired cfg r symbol (name_lookup symbol cfg.margin_pair) price card respend w

  -- `place_entry`
  unfoldable pub place_entry :
      Config F → Reads F → Name → F → Option Conviction → Bool → World F → Option ℕ × World F
  unfolding place_entry_checked
  place_entry cfg r symbol price card respend w =
      if is_off r.mode then (none, w) else place_entry_checked cfg r symbol price card respend w
