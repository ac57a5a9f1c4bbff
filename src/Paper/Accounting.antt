-- ===== src/Paper/Accounting.antt =====
-- Cash, the ledger and the financing window of deepfield/paper_broker.py: what `audit` checks as
-- "cash equals deposits plus ledger amounts minus fees", as an exact replay of the ledger.
use oracle_deepfield.Base.{
  ℕ, ◌+◌, ◌≡◌, refl, Bool, true, Option, none, some, List, [], ◌∷◌, ◌++◌, arith, ltb, ◌==◌,
  if_keeps,
}
use oracle_deepfield.Num.{Float, nought}
use oracle_deepfield.Paper.Types.{Reason, Order, Kind, Entry, Exchange, Env, Params}
use oracle_deepfield.Paper.Book.{
  credit, new_entry, new_lot, with_lot, close_longs, open_long, reduce_long, fill,
}
use oracle_deepfield.Paper.Settle.{settle_orders}
use oracle_deepfield.Paper.Rollover.{financing_from, charge_rollover, accrue_rollover, settle}
use oracle_deepfield.Paper.Placement.{insert_order, add_order}
use oracle_deepfield.Paper.Cases.{fill_cases, settle_orders_keeps, add_order_cases}
use oracle_deepfield.Paper.Exchange.{
  Request, place, cancel_batch, cancel_one, cancel_many, handle, dispatch, run, seed,
}

module _ {F : Type 0} ⦃fl : Float F⦄ where
  open fl use {add, sub, mul, lt, le}

  -- Every entry records the balance before it, plus its amount, less its fee, and the last balance
  -- is the cash.
  abbrev pub Chained : F → List (Entry F) → F → Type 0
  Chained acc [] cash = cash ≡ acc
  Chained acc (e ∷ es) cash = (e.balance ≡ sub (add acc e.amount) e.fee) × Chained e.balance es cash

  -- The book's cash is what its ledger says, from the deposit d on.
  abbrev pub IsReconciled : F → Exchange F → Type 0
  IsReconciled d s = (s.deposits ≡ d) × Chained d s.ledger s.cash

  Chained-append :
      (acc cash : F) (es : List (Entry F)) (e : Entry F)
      → e.balance ≡ sub (add cash e.amount) e.fee
      → Chained acc es cash
      → Chained acc (es ++ e ∷ []) e.balance
  Chained-append acc cash [] e h c = ((rw (← c) h), refl)
  Chained-append acc cash (x ∷ es) e h c = (c.0, Chained-append x.balance cash es e h c.1)

  credit-IsReconciled :
      (d : F) (env : Env F) (amount : F) (kind : Kind) (fee : F) (ref : Option ℕ) (s : Exchange F)
      → IsReconciled d s
      → IsReconciled d (credit env amount kind fee ref s)
  unfolding credit
  credit-IsReconciled d env amount kind fee ref s v =
      (v.0, Chained-append d s.cash s.ledger (new_entry env amount kind fee ref s) refl v.1)

  open_long-IsReconciled :
      (d : F) (env : Env F) (o : Order F) (price volume gross fee : F) (s : Exchange F)
      → IsReconciled d s
      → IsReconciled d (open_long env o price volume gross fee s)
  unfolding open_long
  open_long-IsReconciled d env o price volume gross fee s v =
      credit-IsReconciled d env nought Kind.margin fee (some o.txid)
        (with_lot (new_lot env o price volume gross fee (env.txid_of s.draws)) s) v

  reduce_long-IsReconciled :
      (d : F) (env : Env F) (o : Order F) (price volume fee : F) (s : Exchange F)
      → IsReconciled d s
      → IsReconciled d (reduce_long env o price volume fee s)
  unfolding reduce_long
  reduce_long-IsReconciled d env o price volume fee s v =
      credit-IsReconciled d env (close_longs o.pair volume price s.positions).1 Kind.margin fee
        (some o.txid) (record s { positions = (close_longs o.pair volume price s.positions).0 }) v

  fill-IsReconciled :
      (d : F) (env : Env F) (t : ℕ) (price volume : F) (taker : Bool) (reason : Reason)
      (s : Exchange F)
      → IsReconciled d s
      → IsReconciled d (fill env t price volume taker reason s)
  fill-IsReconciled d env t price volume taker reason s h =
      fill_cases (IsReconciled d) env t price volume taker reason s (λ _. h) (λ o _. h)
        (λ o v gross fee _. open_long-IsReconciled d env o price v gross fee _ h)
        (λ o v gross fee _. reduce_long-IsReconciled d env o price v fee _ h)

  accrue_rollover-IsReconciled :
      (d : F) (env : Env F) (s : Exchange F)
      → IsReconciled d s
      → IsReconciled d (accrue_rollover env s)
  unfolding accrue_rollover charge_rollover
  accrue_rollover-IsReconciled d env s h =
      let total = financing_from env nought s.positions in
      let s' = record s { rollover_next = env.now + env.rollover_secs } in
      if_keeps (IsReconciled d) (env.rollover_secs == 0) s _ h (
        if_keeps (IsReconciled d) (s.rollover_next == 0) s' _ h (
          if_keeps (IsReconciled d) (ltb env.now s.rollover_next) s _ h (
            if_keeps (IsReconciled d) (lt nought total) _ s'
              (credit-IsReconciled d env nought Kind.rollover total none s' h) h)))

  settle-IsReconciled :
      (d : F) (env : Env F) (s : Exchange F) → IsReconciled d s → IsReconciled d (settle env s)
  unfolding settle
  settle-IsReconciled d env s h =
      accrue_rollover-IsReconciled d env (settle_orders env s)
        (settle_orders_keeps (IsReconciled d) env (fill-IsReconciled d env) s h)

  add_order-IsReconciled :
      (d : F) (env : Env F) (p : Params F) (s : Exchange F)
      → IsReconciled d s
      → IsReconciled d (add_order env p s).1
  unfolding insert_order
  add_order-IsReconciled d env p s h =
      add_order_cases (λ r. IsReconciled d r.1) env p s (λ e. h) h (λ symbol volume price. h)

  cancel_many-IsReconciled :
      (d : F) (env : Env F) (ts : List ℕ) (s : Exchange F)
      → IsReconciled d s
      → IsReconciled d (cancel_many env ts s).1
  unfolding cancel_many
  cancel_many-IsReconciled d env [] s h = h
  cancel_many-IsReconciled d env (t ∷ ts) s h =
      cancel_many-IsReconciled d env ts (cancel_one env t s).1 h

  handle-IsReconciled :
      (d : F) (env : Env F) (r : Request F) (s : Exchange F)
      → IsReconciled d s
      → IsReconciled d (handle env r s).1
  unfolding handle
  handle-IsReconciled d env (place p) s h = add_order-IsReconciled d env p s h
  handle-IsReconciled d env (cancel_batch ts) s h = cancel_many-IsReconciled d env ts s h
  handle-IsReconciled d env _ s h = h

  run-IsReconciled :
      (d : F) (rs : List (Env F × Request F)) (s : Exchange F)
      → IsReconciled d s
      → IsReconciled d (run rs s)
  unfolding run
  run-IsReconciled d [] s h = h
  run-IsReconciled d ((env, r) ∷ rs) s h =
      run-IsReconciled d rs (dispatch true env r s).1
        (handle-IsReconciled d env r (settle env s) (settle-IsReconciled d env s h))

  -- After any sequence of requests to a fresh book, the deposit is unchanged, every ledger entry
  -- carries the balance before it plus its amount less its fee, and the cash is the last balance.
  pub run-seed-IsReconciled :
      (portfolio : F) (rs : List (Env F × Request F))
      → IsReconciled portfolio (run rs (seed portfolio))
  unfolding seed
  run-seed-IsReconciled portfolio rs = run-IsReconciled portfolio rs (seed portfolio) (refl, refl)

  -- A second financing step at the same moment changes nothing: a window is charged once.
  pub accrue_rollover-accrue_rollover :
      (env : Env F) (s : Exchange F)
      → accrue_rollover env (accrue_rollover env s) ≡ accrue_rollover env s
  unfolding accrue_rollover charge_rollover credit
  accrue_rollover-accrue_rollover env s = ground arith
