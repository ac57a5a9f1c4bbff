-- ===== src/Executor/Fills.antt =====
-- `poll_fills`, `_resolve_ambiguous_entry`, `_entry_ttl_expired` and `_rest_stop` of
-- deepfield/executor.py: what one poll makes of a pending row under the broker's answers, and the
-- pass over the table. An age is 0 for a time in the future. The next rung is an effect that is
-- named and not run here.
pub mod Machine
pub mod Agreement
pub mod Resolution
pub mod Refunds
use oracle_deepfield.Base.{
  ℕ, ◌-◌, Bool, true, false, not, ◌&&◌, ◌||◌, Option, none, some, List, [], ◌∷◌, ◌++◌, ltb,
  if◌then◌else◌,
}
use oracle_deepfield.Base.Names.{Name, codes}
use oracle_deepfield.Num.{Float, nought}
use oracle_deepfield.Executor.Ledger.{
  Mode, mode_eq, pending, open_, canceled, rejected, is_pending, text, Row, notional_of,
}
use oracle_deepfield.Executor.Sizing.{PairInfo}
use oracle_deepfield.Executor.Venue.{
  Request, sells, Reply, Config, Reads, landed, tick_round, vol_str,
}
use oracle_deepfield.Executor.Bucket.{Bucket, respend_credit}

-- The status that the venue reports: one of the three final ones, or any other.
pub data VenueStatus : Type 0 where
  done_closed done_canceled done_expired working : VenueStatus

abbrev pub is_terminal : VenueStatus → Bool
is_terminal working = false
is_terminal _ = true

-- An order's info; a `vol_exec` that is missing or no number is 0.
pub record Report (F : Type 0) : Type 0 where
  pub status : VenueStatus
  pub vol_exec : F

-- `find_order_by_userref`
pub data Lookup : Type 0 where
  found : Name → Lookup
  absent unknown : Lookup

-- The broker's answers to one row's poll: the batched query, the search by client order id, the
-- query of an order just found, the cancel, and the query after it.
pub record Answers (F : Type 0) : Type 0 where
  pub batch : Option (Report F)
  pub lookup : Lookup
  pub adopted : Option (Report F)
  pub cancel_acked : Bool
  pub settled : Option (Report F)

-- What a poll does besides the row.
pub data Effect (F : Type 0) : Type 0 where
  cancels : Effect F
  protects : Request F → Effect F
  next_rung : Effect F
  refunds : F → Effect F

abbrev pub userref_resolve_secs : ℕ
userref_resolve_secs = 300

-- `_entry_ttl_expired`, with ENTRY_TTL_SECS
unfoldable pub entry_ttl_expired : ℕ → ℕ → ℕ → Bool
entry_ttl_expired ttl now ts = ltb 0 ttl && ltb ttl (now - ts)

module _ {F : Type 0} ⦃fl : Float F⦄ where
  open fl use {lt}

  -- A row retired because its order never landed, once the grace is over.
  abbrev pub retire : ℕ → Name → Row F → Row F
  retire now why row =
      if ltb userref_resolve_secs (now - row.ts)
      then record row { status = rejected; error = text why }
      else row

  unfoldable pub resolve_by : ℕ → Option ℕ → Lookup → Row F → Row F
  resolve_by now none lookup row =
      retire now (codes "ambiguous AddOrder, no userref to recover by") row
  resolve_by now (some u) (found given) row = record row { txid = some given }
  resolve_by now (some u) unknown row = row
  resolve_by now (some u) absent row =
      retire now (codes "AddOrder never landed (userref not found)") row

  -- `_resolve_ambiguous_entry`: the row, with the txid where one was found
  unfoldable pub resolve_ambiguous_entry : ℕ → Lookup → Row F → Row F
  unfolding resolve_by
  resolve_ambiguous_entry now lookup row = resolve_by now row.userref lookup row

  unfoldable pub stop_request : Config F → Reads F → Row F → Request F
  unfolding tick_round vol_str
  stop_request cfg r row = record {
    pair = row.margin_pair;
    side = sells;
    ordertype = codes "stop-loss";
    volume = vol_str (r.pair_info row.symbol) row.volume;
    leverage = row.leverage;
    price = some (tick_round cfg.tick_decimals row.symbol row.stop);
    post_only = false;
    validate_only = false;
    userref = none;
  }

  -- `_rest_stop`, at the row's stop: the row keeps no stop where the venue took none.
  unfoldable pub rest_stop : Config F → Reads F → Row F → Row F × List (Effect F)
  unfolding stop_request
  rest_stop cfg r row =
      let q = stop_request cfg r row in
      if cfg.protective_stop
      then elim (landed (r.reply q)) [
        | none ↦ (row, protects q ∷ [])
        | some given ↦ (record row { stop_txid = some given }, protects q ∷ [])
      ]
      else (row, [])

  -- The row of a terminal order: a position of the settled volume with its stop, or a dead bid
  -- whose notional goes back to the bucket.
  unfoldable pub settle_row : Config F → Reads F → Report F → Row F → Row F × List (Effect F)
  unfolding rest_stop
  settle_row cfg r o row =
      if lt nought o.vol_exec
      then (let (stopped, sent) =
            rest_stop cfg r (record row { status = open_; volume = o.vol_exec }) in
          (stopped, sent ++ next_rung ∷ []))
      else (
        record row { status = canceled; error = text (codes "entry unfilled") },
        refunds (notional_of row) ∷ [],
      )

  -- The order after its cancel: nothing changes before it is terminal.
  unfoldable pub after_cancel :
      Config F → Reads F → Bool → Option (Report F) → Row F → Row F × List (Effect F)
  unfolding settle_row
  after_cancel cfg r false settled row = (row, cancels ∷ [])
  after_cancel cfg r true none row = (row, cancels ∷ [])
  after_cancel cfg r true (some o) row =
      let (settled_row, sent) = settle_row cfg r o row in
      if is_terminal o.status then (settled_row, cancels ∷ sent) else (row, cancels ∷ [])

  -- A partial fill, or a bid past its time, is canceled; any other resting bid is left.
  unfoldable pub poll_report :
      Config F → Reads F → ℕ → Answers F → Option (Report F) → Row F → Row F × List (Effect F)
  unfolding entry_ttl_expired after_cancel settle_row
  poll_report cfg r ttl a none row = (row, [])
  poll_report cfg r ttl a (some o) row =
      if is_terminal o.status
      then settle_row cfg r o row
      else if lt nought o.vol_exec || entry_ttl_expired ttl r.now row.ts
      then after_cancel cfg r a.cancel_acked a.settled row
      else (row, [])

  -- The row of an order that was searched for: its txid, where it has one now.
  unfoldable pub poll_found :
      Config F → Reads F → ℕ → Answers F → Option Name → Row F → Row F × List (Effect F)
  unfolding poll_report
  poll_found cfg r ttl a none row = (row, [])
  poll_found cfg r ttl a (some given) row = poll_report cfg r ttl a a.adopted row

  unfoldable pub poll_txid :
      Config F → Reads F → ℕ → Answers F → Option Name → Row F → Row F × List (Effect F)
  unfolding resolve_ambiguous_entry poll_found poll_report
  poll_txid cfg r ttl a none row =
      let resolved = resolve_ambiguous_entry r.now a.lookup row in
      poll_found cfg r ttl a resolved.txid resolved
  poll_txid cfg r ttl a (some given) row = poll_report cfg r ttl a a.batch row

  -- One row of the loop.
  unfoldable pub poll_row : Config F → Reads F → ℕ → Answers F → Row F → Row F × List (Effect F)
  unfolding poll_txid
  poll_row cfg r ttl a row = poll_txid cfg r ttl a row.txid row

  abbrev pub is_mine : Mode → Row F → Bool
  is_mine m row = is_pending row.status && mode_eq row.mode m

  -- The loop over the pending rows of the mode; every other row is left.
  unfoldable pub poll_rows :
      Config F → Reads F → ℕ → (Row F → Answers F) → List (Row F) → List (Row F) × List (Effect F)
  unfolding poll_row
  poll_rows cfg r ttl answers [] = ([], [])
  poll_rows cfg r ttl answers (row ∷ rows) =
      let (polled, effects) = poll_row cfg r ttl (answers row) row in
      let (rest, more) = poll_rows cfg r ttl answers rows in
      if is_mine r.mode row then (polled ∷ rest, effects ++ more) else (row ∷ rest, more)

  -- The refunds of a pass, in order, at one time.
  unfoldable pub apply_refunds :
      Config F → F → List (Effect F) → Option (Bucket F) → Option (Bucket F)
  unfolding respend_credit
  apply_refunds cfg now [] b = b
  apply_refunds cfg now (refunds n ∷ es) b =
      apply_refunds cfg now es (respend_credit cfg.pace n now b)
  apply_refunds cfg now (cancels ∷ es) b = apply_refunds cfg now es b
  apply_refunds cfg now (protects q ∷ es) b = apply_refunds cfg now es b
  apply_refunds cfg now (next_rung ∷ es) b = apply_refunds cfg now es b
