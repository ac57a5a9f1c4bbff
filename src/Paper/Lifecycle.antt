-- ===== src/Paper/Lifecycle.antt =====
-- The life of an order in deepfield/paper_broker.py: over any run of requests no row is removed, no
-- term changes, and a row that was filled or canceled never changes again.
use oracle_deepfield.Base.{
  ℕ, ◌≡◌, refl, Bool, true, false, Option, none, some, List, [], ◌∷◌, arith, ◌==◌, inl, inr, All,
  Option-cases,
}
use oracle_deepfield.Num.{Float}
use oracle_deepfield.Paper.Types.{Reason, no_long_volume, canceled_by_user, Order, Exchange, Env}
use oracle_deepfield.Paper.Book.{
  update_order, find_order, mark_canceled, mark_closed, credit, open_long, reduce_long, close_order,
  fill, bar,
}
use oracle_deepfield.Paper.Settle.{
  execution, execute, settle_one, settle_rows, settle_order, settle_orders,
}
use oracle_deepfield.Paper.Rollover.{charge_rollover, accrue_rollover, settle}
use oracle_deepfield.Paper.Placement.{insert_order}
use oracle_deepfield.Paper.Exchange.{
  Request, place, cancel_order, cancel_batch, cancel_where, cancel_one, cancel_many, handle,
  dispatch,
}
use oracle_deepfield.Paper.Cases.{fill_cases, add_order_cases}
use oracle_deepfield.Paper.Rows.{
  SameTerms-refl, KeepsTerms, Grows, Grows-refl, Grows-trans, Grows-append, OpenAt, Fresh, Distinct,
  update_order-Grows, update_order-OpenAt, settle_order-Pending,
}

module _ {F : Type 0} where
  pub find_order-txid :
      (t : ℕ) (os : List (Order F)) (o : Order F) → find_order t os ≡ some o → o.txid ≡ t
  find_order-txid t [] o e = cc
  find_order-txid t (x ∷ os) o e = ground (arith, find_order-txid t os o)

  -- What one step may do to the rows: nothing, or one update by the id t that changes no term.
  pub data Touches (t : ℕ) (os os' : List (Order F)) : Type 0 where
    nothing : os' ≡ os → Touches t os os'
    update : (f : Order F → Order F) → KeepsTerms f → os' ≡ update_order t f os → Touches t os os'

  Touches-Grows : (t : ℕ) (os os' : List (Order F)) → OpenAt t os → Touches t os os' → Grows os os'
  Touches-Grows t os os' h (nothing e) = rw e (Grows-refl os)
  Touches-Grows t os os' h (update f k e) = rw e (update_order-Grows t f os k h)

  Touches-OpenAt :
      (t u : ℕ) (os os' : List (Order F))
      → (u == t) ≡ false
      → OpenAt u os
      → Touches t os os'
      → OpenAt u os'
  Touches-OpenAt t u os os' ne h (nothing e) = rw e h
  Touches-OpenAt t u os os' ne h (update f k e) = rw e (update_order-OpenAt t u f os k ne h)

  Touches-Pending :
      (t : ℕ) (os os' : List (Order F)) (rs : List (Order F))
      → Touches t os os'
      → Fresh t rs
      → All (λ r. OpenAt r.txid os) rs
      → All (λ r. OpenAt r.txid os') rs
  Touches-Pending t os os' [] m f h = tt
  Touches-Pending t os os' (r ∷ rs) m f h =
      (Touches-OpenAt t r.txid os os' f.0 h.0 m, Touches-Pending t os os' rs m f.1 h.1)

module _ {F : Type 0} ⦃fl : Float F⦄ where
  pub mark_closed-KeepsTerms :
      (env : Env F) (v price gross fee : F) (reason : Reason)
      → KeepsTerms (mark_closed env v price gross fee reason)
  mark_closed-KeepsTerms env v price gross fee reason o = ground arith

  pub mark_canceled-KeepsTerms :
      (env : Env F) (reason : Reason) → KeepsTerms (mark_canceled env reason)
  mark_canceled-KeepsTerms env reason o = ground arith

  fill-Touches :
      (env : Env F) (t : ℕ) (price volume : F) (taker : Bool) (reason : Reason) (s : Exchange F)
      → Touches t s.orders (fill env t price volume taker reason s).orders
  unfolding open_long reduce_long credit
  fill-Touches env t price volume taker reason s =
      fill_cases (λ x. Touches t s.orders x.orders) env t price volume taker reason s
        (λ _. nothing refl)
        (λ o found.
          update (mark_canceled env no_long_volume) (mark_canceled-KeepsTerms env no_long_volume)
            (rw (find_order-txid t s.orders o found)))
        (λ o v gross fee found. closes o v gross fee found)
        (λ o v gross fee found. closes o v gross fee found)
    where
      closes :
          (o : Order F) (v gross fee : F)
          → find_order t s.orders ≡ some o
          → Touches t s.orders (close_order env o price v gross fee reason s).orders
      closes o v gross fee found =
          update (mark_closed env v price gross fee reason)
            (mark_closed-KeepsTerms env v price gross fee reason)
            (rw (find_order-txid t s.orders o found))

  pub settle_one-Touches :
      (env : Env F) (r : Order F) (s : Exchange F)
      → Touches r.txid s.orders (settle_one env r s).orders
  unfolding settle_one
  settle_one-Touches env r s = elim (Option-cases (bar env r.symbol)) [
    | inl missing ↦ rw (missing, settle_one) (nothing refl)
    | inr (b, found) ↦ rw (found, settle_one) (executed (execution env b r))
  ]
    where
      executed :
          (x : Option (F × Bool × Reason)) → Touches r.txid s.orders (execute env r x s).orders
      executed none = nothing refl
      executed (some (price, taker, reason)) = fill-Touches env r.txid price r.volume taker reason s

  settle_rows-Grows :
      (env : Env F) (rs : List (Order F)) (s : Exchange F)
      → Distinct rs
      → All (λ r. OpenAt r.txid s.orders) rs
      → Grows s.orders (settle_rows env rs s).orders
  unfolding settle_rows
  settle_rows-Grows env [] s d h = Grows-refl s.orders
  settle_rows-Grows env (r ∷ rs) s d h =
      let s' = settle_one env r s in
      let m = settle_one-Touches env r s in
      Grows-trans s.orders s'.orders (settle_rows env rs s').orders
        (Touches-Grows r.txid s.orders s'.orders h.0 m)
        (settle_rows-Grows env rs s' d.1 (Touches-Pending r.txid s.orders s'.orders rs m d.0 h.1))

  pub accrue_rollover-orders :
      (env : Env F) (s : Exchange F) → (accrue_rollover env s).orders ≡ s.orders
  unfolding accrue_rollover charge_rollover credit
  accrue_rollover-orders env s = ground arith

  -- Settling removes no row and changes no row that was not open.
  pub settle-Grows :
      (env : Env F) (s : Exchange F) → Distinct s.orders → Grows s.orders (settle env s).orders
  unfolding settle settle_orders
  settle-Grows env s d =
      let (distinct, pending) = settle_order-Pending s.orders d in
      rw accrue_rollover-orders (settle_rows-Grows env (settle_order s.orders) s distinct pending)

  cancel_where-Grows :
      (env : Env F) (t : ℕ) (os : List (Order F)) → Grows os (cancel_where env t os)
  unfolding cancel_where
  cancel_where-Grows env t [] = tt
  cancel_where-Grows env t (o ∷ os) = (
    ground (arith, SameTerms-refl o, mark_canceled-KeepsTerms env canceled_by_user o),
    cancel_where-Grows env t os,
  )

  cancel_many-Grows :
      (env : Env F) (ts : List ℕ) (s : Exchange F) → Grows s.orders (cancel_many env ts s).1.orders
  unfolding cancel_many cancel_one
  cancel_many-Grows env [] s = Grows-refl s.orders
  cancel_many-Grows env (t ∷ ts) s =
      let s' = (cancel_one env t s).1 in
      Grows-trans s.orders s'.orders (cancel_many env ts s').1.orders
        (cancel_where-Grows env t s.orders) (cancel_many-Grows env ts s')

  handle-Grows :
      (env : Env F) (r : Request F) (s : Exchange F) → Grows s.orders (handle env r s).1.orders
  unfolding handle insert_order cancel_one
  handle-Grows env (place p) s =
      add_order_cases (λ x. Grows s.orders x.1.orders) env p s (λ e. Grows-refl s.orders)
        (Grows-refl s.orders) (λ symbol v price. Grows-append s.orders _)
  handle-Grows env (cancel_order t) s = cancel_where-Grows env t s.orders
  handle-Grows env (cancel_batch ts) s = cancel_many-Grows env ts s
  handle-Grows env _ s = Grows-refl s.orders

  -- One request, its settling included, removes no row, changes no term, and leaves a filled or
  -- canceled row alone.
  pub dispatch-Grows :
      (env : Env F) (r : Request F) (s : Exchange F)
      → Distinct s.orders
      → Grows s.orders (dispatch true env r s).1.orders
  unfolding dispatch
  dispatch-Grows env r s d =
      Grows-trans s.orders (settle env s).orders (dispatch true env r s).1.orders
        (settle-Grows env s d) (handle-Grows env r (settle env s))
