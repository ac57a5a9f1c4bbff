-- ===== src/Paper/Audit.antt =====
-- `audit` of deepfield/paper_broker.py: the simulated exchange against the bot's own ledger. The
-- details are names where the source writes texts, and the tables are there.
use oracle_deepfield.Base.{
  ℕ, Bool, true, false, not, ◌&&◌, ◌||◌, Option, none, some, List, [], ◌∷◌, map, ◌==◌, keep, any_of,
  count_of,
}
use oracle_deepfield.Base.Names.{Name, name_eq}
use oracle_deepfield.Num.{Float, nought, fsum}
use oracle_deepfield.Paper.Types.{
  Status, open_, closed, canceled, expired, Order, Position, Exchange,
}
use oracle_deepfield.Paper.Book.{is_sell, open_vol}
use oracle_deepfield.Paper.Settle.{is_open}

-- A paper row of the bot's orders table; `live` says that its status is open.
pub record LedgerRow (F : Type 0) : Type 0 where
  pub symbol : Name
  pub txid : ℕ
  pub stop_txid : Option ℕ
  pub close_txid : Option ℕ
  pub volume : F
  pub live : Bool

-- The six checks: the symbols or pairs that fail, the two comparisons, and a count.
pub record Audit : Type 0 where
  pub unfilled : List Name
  pub naked : List Name
  pub over : List Name
  pub volumes_agree : Bool
  pub cash_agrees : Bool
  pub orphans : ℕ

abbrev pub is_closed : Status → Bool
is_closed closed = true
is_closed open_ = false
is_closed canceled = false
is_closed expired = false

abbrev pub is_id : Option ℕ → ℕ → Bool
is_id none t = false
is_id (some u) t = u == t

module _ {F : Type 0} where
  -- SELECT 1 FROM paper_orders WHERE txid=? AND status='open'
  unfoldable pub rests : Option ℕ → List (Order F) → Bool
  rests none os = false
  rests (some t) os = any_of (λ o. o.txid == t && is_open o.status) os

  abbrev pub live_rows : List (LedgerRow F) → List (LedgerRow F)
  live_rows = keep (λ r. r.live)

  -- Neither a resting stop nor a resting close.
  unfoldable pub is_naked : List (Order F) → LedgerRow F → Bool
  unfolding rests
  is_naked os r = not (rests r.stop_txid os) && not (rests r.close_txid os)

  unfoldable pub naked_symbols : List (LedgerRow F) → List (Order F) → List Name
  unfolding is_naked
  naked_symbols rows os = map (λ r. r.symbol) (keep (is_naked os) (live_rows rows))

  abbrev pub resting_sells : List (Order F) → List (Order F)
  resting_sells = keep (λ o. is_open o.status && is_sell o.side)

  -- Resting sells that no row of the ledger owns.
  unfoldable pub orphan_count : List (LedgerRow F) → List (Order F) → ℕ
  orphan_count rows os =
      count_of (λ o. not (any_of (λ r. is_id r.stop_txid o.txid || is_id r.close_txid o.txid) rows))
        (resting_sells os)

-- The distinct pairs of GROUP BY, in order.
unfoldable pub distinct_names : List Name → List Name
distinct_names [] = []
distinct_names (n ∷ ns) = n ∷ keep (λ m. not (name_eq m n)) (distinct_names ns)

module _ {F : Type 0} ⦃fl : Float F⦄ where
  open fl use {add, sub, abs, lt, dec}

  unfoldable pub unfilled_symbols : List (LedgerRow F) → List (Order F) → List Name
  unfilled_symbols rows os =
      map (λ r. r.symbol)
        (keep
          (λ r.
            not (any_of (λ o. o.txid == r.txid && is_closed o.status && lt nought o.vol_exec) os))
          (live_rows rows))

  -- SUM(volume) of the pair's resting sells, and SUM(vol - vol_closed) of its positions.
  abbrev pub selling : Name → List (Order F) → F
  selling pair os = fsum (map (λ o. o.volume) (keep (λ o. name_eq o.pair pair) (resting_sells os)))

  abbrev pub holding : Name → List (Position F) → F
  holding pair ps = fsum (map open_vol (keep (λ p. name_eq p.pair pair) ps))

  unfoldable pub oversold_pairs : List (Order F) → List (Position F) → List Name
  unfolding distinct_names
  oversold_pairs os ps =
      keep (λ pair. lt (add (holding pair ps) (dec 1 9)) (selling pair os))
        (distinct_names (map (λ o. o.pair) (resting_sells os)))

  -- Cash against deposits plus the sum of the amounts less the sum of the fees.
  unfoldable pub cash_matches : Exchange F → Bool
  cash_matches s =
      lt
        (abs (
          sub s.cash (
            sub (add s.deposits (fsum (map (λ e. e.amount) s.ledger)))
              (fsum (map (λ e. e.fee) s.ledger)))))
        (dec 1 6)

  -- `audit`
  unfoldable pub audit : List (LedgerRow F) → Exchange F → Audit
  unfolding unfilled_symbols naked_symbols oversold_pairs cash_matches orphan_count
  audit rows s = record {
    unfilled = unfilled_symbols rows s.orders;
    naked = naked_symbols rows s.orders;
    over = oversold_pairs s.orders s.positions;
    volumes_agree =
        lt
          (abs
            (sub (fsum (map (λ r. r.volume) (live_rows rows))) (fsum (map open_vol s.positions))))
          (dec 1 8);
    cash_agrees = cash_matches s;
    orphans = orphan_count rows s.orders;
  }
