-- ===== src/Paper/Completion.antt =====
-- Settling in deepfield/paper_broker.py leaves nothing behind: an open order that the market has
-- triggered is finished by one settling, whatever the orders before and after it do.
use oracle_deepfield.Base.{
  ℕ, ◌≡◌, refl, ap, Bool, true, false, not, none, some, List, [], ◌∷◌, ◌++◌, arith, ◌==◌, ◌⊎◌, inl,
  inr, All, keep, if_splits, Bool-cases,
}
use oracle_deepfield.Num.{Float}
use oracle_deepfield.Paper.Types.{Reason, no_long_volume, Order, Exchange, Env, Candle}
use oracle_deepfield.Paper.Book.{
  update_order, find_order, mark_canceled, mark_closed, credit, open_long, reduce_long, close_order,
  fill, bar,
}
use oracle_deepfield.Paper.Settle.{
  is_open, is_stop, resting, execution, settle_one, settle_rows, settle_order, settle_orders,
}
use oracle_deepfield.Paper.Rollover.{settle}
use oracle_deepfield.Paper.Cases.{fill_cases}
use oracle_deepfield.Paper.Rows.{KeepsTerms, Fresh, Distinct, settle_order-Pending}
use oracle_deepfield.Paper.Lifecycle.{
  Touches, nothing, update, find_order-txid, settle_one-Touches, accrue_rollover-orders,
}

module _ {F : Type 0} where
  -- Every row with the id t is closed, canceled or expired.
  abbrev pub FinishedAt : ℕ → List (Order F) → Type 0
  FinishedAt t = All (λ o. ((o.txid == t) ≡ false) ⊎ (is_open o.status ≡ false))

  FinishedAt-missing : (t : ℕ) (os : List (Order F)) → find_order t os ≡ none → FinishedAt t os
  FinishedAt-missing t [] e = tt
  FinishedAt-missing t (o ∷ os) e = ground (arith, FinishedAt-missing t os)

  FinishedAt-update_order :
      (t : ℕ) (f : Order F → Order F) (os : List (Order F))
      → ((o : Order F) → is_open (f o).status ≡ false)
      → FinishedAt t (update_order t f os)
  unfolding update_order
  FinishedAt-update_order t f [] h = tt
  FinishedAt-update_order t f (o ∷ os) h = (
    if_splits (λ (r : Order F). ((r.txid == t) ≡ false) ⊎ (is_open r.status ≡ false)) (o.txid == t)
        (f o) o (λ e. inr (h o)) (λ e. inl e),
    FinishedAt-update_order t f os h,
  )

  update_order-FinishedAt :
      (t u : ℕ) (f : Order F → Order F) (os : List (Order F))
      → KeepsTerms f
      → (u == t) ≡ false
      → FinishedAt t os
      → FinishedAt t (update_order u f os)
  unfolding update_order
  update_order-FinishedAt t u f [] k ne h = tt
  update_order-FinishedAt t u f (o ∷ os) k ne h =
      (ground (arith, h.0, k o), update_order-FinishedAt t u f os k ne h.1)

  Touches-FinishedAt :
      (t u : ℕ) (os os' : List (Order F))
      → (u == t) ≡ false
      → FinishedAt t os
      → Touches u os os'
      → FinishedAt t os'
  Touches-FinishedAt t u os os' ne h (nothing e) = rw e h
  Touches-FinishedAt t u os os' ne h (update f k e) = rw e (update_order-FinishedAt t u f os k ne h)

  All-unkeep :
      (P : Order F → Type 0) (q : Order F → Bool) (os : List (Order F))
      → All P (keep q os)
      → All (λ o. q o ≡ true → P o) os
  All-unkeep P q [] h = tt
  All-unkeep P q (o ∷ os) h = elim (Bool-cases (q o)) [
    | inl e ↦ let (p, r) = (rw e at h) in ((λ x. p), All-unkeep P q os r)
    | inr e ↦ ((λ x. absurd (ground arith)), All-unkeep P q os (rw e at h))
  ]

  -- A property of the rows with q and of the rows without it.
  All-unsplit :
      (P : Order F → Type 0) (q : Order F → Bool) (os : List (Order F))
      → All P (keep q os ++ keep (λ o. not (q o)) os)
      → All P os
  All-unsplit P q os h =
      let (p, r) = All-unappend P (keep q os) (keep (λ o. not (q o)) os) h in
      both os (All-unkeep P q os p) (All-unkeep P (λ o. not (q o)) os r)
    where
      All-unappend :
          (R : Order F → Type 0) (xs ys : List (Order F)) → All R (xs ++ ys) → All R xs × All R ys
      All-unappend R [] ys g = (tt, g)
      All-unappend R (x ∷ xs) ys g = let (a, b) = All-unappend R xs ys g.1 in ((g.0, a), b)

      both :
          (xs : List (Order F))
          → All (λ o. q o ≡ true → P o) xs
          → All (λ o. not (q o) ≡ true → P o) xs
          → All P xs
      both [] f g = tt
      both (x ∷ xs) f g =
          (elim (Bool-cases (q x)) [ inl e ↦ f.0 e | inr e ↦ g.0 (ap not e) ], both xs f.1 g.1)

module _ {F : Type 0} ⦃fl : Float F⦄ where
  -- The market has triggered the order: there is a bar, and the engine would execute on it.
  pub record Triggered (env : Env F) (r : Order F) : Type 0 where
    pub at : Candle F
    pub there : bar env r.symbol ≡ some at
    pub price : F
    pub taker : Bool
    pub reason : Reason
    pub executes : execution env at r ≡ some (price, taker, reason)

  fill-FinishedAt :
      (env : Env F) (t : ℕ) (price volume : F) (taker : Bool) (reason : Reason) (s : Exchange F)
      → FinishedAt t (fill env t price volume taker reason s).orders
  unfolding open_long reduce_long credit
  fill-FinishedAt env t price volume taker reason s =
      let closed_at = λ (o : Order F) (v gross fee : F) (found : find_order t s.orders ≡ some o).
        closes o v gross fee found in
      fill_cases (λ x. FinishedAt t x.orders) env t price volume taker reason s
        (FinishedAt-missing t s.orders)
        (λ o found.
          rw (find_order-txid t s.orders o found)
            (FinishedAt-update_order t (mark_canceled env no_long_volume) s.orders (λ x. refl)))
        closed_at closed_at
    where
      closes :
          (o : Order F) (v gross fee : F)
          → find_order t s.orders ≡ some o
          → FinishedAt t (close_order env o price v gross fee reason s).orders
      closes o v gross fee found = rw (find_order-txid t s.orders o found) (
          FinishedAt-update_order t (mark_closed env v price gross fee reason) s.orders (λ x. refl))

  settle_one-FinishedAt :
      (env : Env F) (r : Order F) (s : Exchange F)
      → Triggered env r
      → FinishedAt r.txid (settle_one env r s).orders
  unfolding settle_one
  settle_one-FinishedAt env r s h =
      rw (h.there, settle_one, h.executes)
        (fill-FinishedAt env r.txid h.price r.volume h.taker h.reason s)

  settle_rows_keeps-FinishedAt :
      (env : Env F) (t : ℕ) (rs : List (Order F)) (s : Exchange F)
      → Fresh t rs
      → FinishedAt t s.orders
      → FinishedAt t (settle_rows env rs s).orders
  unfolding settle_rows
  settle_rows_keeps-FinishedAt env t [] s f h = h
  settle_rows_keeps-FinishedAt env t (r ∷ rs) s f h =
      settle_rows_keeps-FinishedAt env t rs (settle_one env r s) f.1 (
        Touches-FinishedAt t r.txid s.orders (settle_one env r s).orders f.0 h
          (settle_one-Touches env r s))

  -- What a triggered order is after the settling of s.
  abbrev Completes : Env F → Exchange F → Order F → Type 0
  Completes env s r = Triggered env r → FinishedAt r.txid s.orders

  settle_rows-FinishedAt :
      (env : Env F) (rs : List (Order F)) (s : Exchange F)
      → Distinct rs
      → All (Completes env (settle_rows env rs s)) rs
  unfolding settle_rows
  settle_rows-FinishedAt env [] s d = tt
  settle_rows-FinishedAt env (r ∷ rs) s d = (
    λ h.
        settle_rows_keeps-FinishedAt env r.txid rs (settle_one env r s) d.0
          (settle_one-FinishedAt env r s h),
    settle_rows-FinishedAt env rs (settle_one env r s) d.1,
  )

  -- One settling finishes every order that was open and that the market has triggered: afterwards
  -- each row with its id is closed, canceled or expired. The rows have different ids.
  pub settle-FinishedAt :
      (env : Env F) (s : Exchange F)
      → Distinct s.orders
      → All
          (λ r. is_open r.status ≡ true → Triggered env r → FinishedAt r.txid (settle env s).orders)
          s.orders
  unfolding settle settle_orders settle_order resting
  settle-FinishedAt env s d =
      let rows =
        settle_rows-FinishedAt env (settle_order s.orders) s (settle_order-Pending s.orders d).0 in
      rw accrue_rollover-orders (
        All-unkeep (Completes env (settle_orders env s)) (λ r. is_open r.status) s.orders
          (All-unsplit (Completes env (settle_orders env s)) (λ r. is_stop r.ordertype)
            (resting s.orders) rows))
