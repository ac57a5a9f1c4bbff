-- ===== src/Paper/Runs.antt =====
-- Transaction ids in deepfield/paper_broker.py: as long as the generator repeats none, no two rows
-- ever share one, and the life of an order is as Paper/Lifecycle says over any run of requests.
use oracle_deepfield.Base.{
  ℕ, suc, ◌≤◌, ◌<◌, ◌≡◌, ap, Bool, true, false, List, [], ◌∷◌, ◌++◌, arith, ◌==◌, ◌∙◌, if_keeps,
  ◌&&◌, All, All-append,
}
use oracle_deepfield.Num.{Float}
use oracle_deepfield.Paper.Types.{Reason, canceled_by_user, no_long_volume, Order, Exchange, Env}
use oracle_deepfield.Paper.Book.{
  update_order, mark_canceled, mark_closed, credit, open_long, reduce_long, close_order, fill,
}
use oracle_deepfield.Paper.Settle.{is_open, settle_orders}
use oracle_deepfield.Paper.Rollover.{charge_rollover, accrue_rollover, settle}
use oracle_deepfield.Paper.Placement.{insert_order, new_order}
use oracle_deepfield.Paper.Exchange.{
  Request, place, cancel_order, cancel_batch, cancel_where, cancel_one, cancel_many, handle,
  dispatch, run,
}
use oracle_deepfield.Paper.Cases.{fill_cases, settle_orders_keeps, add_order_cases}
use oracle_deepfield.Paper.Rows.{
  KeepsTerms, Grows, Grows-refl, Grows-trans, Fresh, Distinct, update_order-Distinct,
}
use oracle_deepfield.Paper.Lifecycle.{
  accrue_rollover-orders, dispatch-Grows, mark_closed-KeepsTerms, mark_canceled-KeepsTerms,
}

-- The generator g never repeats an id.
abbrev pub NeverRepeats : (ℕ → ℕ) → Type 0
NeverRepeats g = (j k : ℕ) → g j ≡ g k → j ≡ k

module _ (g : ℕ → ℕ) where
  -- t is one of the first n ids.
  abbrev pub Drawn : ℕ → ℕ → Type 0
  Drawn n t = (k : ℕ) × (k < n) × (t ≡ g k)

  Drawn-suc : (n t : ℕ) → Drawn n t → Drawn (suc n) t
  Drawn-suc n t (k, lt, e) = (k, omega arith, e)

  module _ {F : Type 0} where
    abbrev pub AllDrawn : ℕ → List (Order F) → Type 0
    AllDrawn n = All (λ o. Drawn n o.txid)

    AllDrawn-suc : (n : ℕ) (os : List (Order F)) → AllDrawn n os → AllDrawn (suc n) os
    AllDrawn-suc n [] h = tt
    AllDrawn-suc n (o ∷ os) h = (Drawn-suc n o.txid h.0, AllDrawn-suc n os h.1)

    -- The rows have different ids, all of them drawn before.
    pub record IsIdentified (s : Exchange F) : Type 0 where
      pub distinct : Distinct s.orders
      pub drawn : AllDrawn s.draws s.orders

    update_order-AllDrawn :
        (n t : ℕ) (f : Order F → Order F) (os : List (Order F))
        → KeepsTerms f
        → AllDrawn n os
        → AllDrawn n (update_order t f os)
    unfolding update_order
    update_order-AllDrawn n t f [] k h = tt
    update_order-AllDrawn n t f (o ∷ os) k h = (
      if_keeps (λ (r : Order F). Drawn n r.txid) (o.txid == t) (f o) o
          (h.0.0, h.0.1, (k o).txid ∙ h.0.2) h.0,
      update_order-AllDrawn n t f os k h.1,
    )

    -- An id not drawn yet is on no row.
    AllDrawn-Fresh : NeverRepeats g → (n : ℕ) (os : List (Order F)) → AllDrawn n os → Fresh (g n) os
    AllDrawn-Fresh never n [] h = tt
    AllDrawn-Fresh never n (o ∷ os) h =
        (ground (arith, never h.0.0 n, h.0.2), AllDrawn-Fresh never n os h.1)

    append-IsIdentified :
        NeverRepeats g
        → (n : ℕ) (row : Order F) (os : List (Order F)) → row.txid ≡ g n
        → Distinct os
        → AllDrawn n os
        → Distinct (os ++ row ∷ []) × AllDrawn (suc n) (os ++ row ∷ [])
    append-IsIdentified never n row [] e d h = ((tt, tt), ((n, omega arith, e), tt))
    append-IsIdentified never n row (o ∷ os) e d h =
        let rest = append-IsIdentified never n row os e d.1 h.1 in
        (
          (
            All-append (λ (r : Order F). (r.txid == o.txid) ≡ false) os (row ∷ []) d.0
                (ground (arith, never h.0.0 n, h.0.2), tt),
            rest.0,
          ),
          (Drawn-suc n o.txid h.0, rest.1),
        )

  module _ {F : Type 0} ⦃fl : Float F⦄ where
    fill-IsIdentified :
        (env : Env F) (t : ℕ) (price volume : F) (taker : Bool) (reason : Reason) (s : Exchange F)
        → IsIdentified s
        → IsIdentified (fill env t price volume taker reason s)
    unfolding open_long reduce_long credit
    fill-IsIdentified env t price volume taker reason s h =
        fill_cases IsIdentified env t price volume taker reason s (λ _. h)
          (λ o _.
            marked o (mark_canceled env no_long_volume)
              (mark_canceled-KeepsTerms env no_long_volume))
          (λ o v gross fee _.
            let (d, a) = closed_rows o v gross fee in
            record {
              distinct = d;
              drawn = AllDrawn-suc (suc s.draws) _ (AllDrawn-suc s.draws _ a);
            })
          (λ o v gross fee _.
            let (d, a) = closed_rows o v gross fee in
            record { distinct = d; drawn = AllDrawn-suc s.draws _ a })
      where
        marked :
            (o : Order F) (f : Order F → Order F)
            → KeepsTerms f
            → IsIdentified (record s { orders = update_order o.txid f s.orders })
        marked o f k = record {
          distinct = update_order-Distinct o.txid f s.orders k h.distinct;
          drawn = update_order-AllDrawn s.draws o.txid f s.orders k h.drawn;
        }

        closed_rows :
            (o : Order F) (v gross fee : F)
            → Distinct (close_order env o price v gross fee reason s).orders
              × AllDrawn s.draws (close_order env o price v gross fee reason s).orders
        closed_rows o v gross fee =
            let m =
              marked o (mark_closed env v price gross fee reason)
                (mark_closed-KeepsTerms env v price gross fee reason) in
            (m.distinct, m.drawn)

    credit-IsIdentified :
        (s s' : Exchange F)
        → s'.orders ≡ s.orders
        → s.draws ≤ s'.draws
        → IsIdentified s
        → IsIdentified s'
    credit-IsIdentified s s' e le h = record {
      distinct = rw e h.distinct;
      drawn = rw e (raise s.orders h.drawn);
    }
      where
        raise : (os : List (Order F)) → AllDrawn s.draws os → AllDrawn s'.draws os
        raise [] a = tt
        raise (o ∷ os) a = ((a.0.0, omega arith, a.0.2), raise os a.1)

    accrue_rollover-draws : (env : Env F) (s : Exchange F) → s.draws ≤ (accrue_rollover env s).draws
    unfolding accrue_rollover charge_rollover credit
    accrue_rollover-draws env s = ground arith

    settle-IsIdentified :
        (env : Env F) (s : Exchange F) → IsIdentified s → IsIdentified (settle env s)
    unfolding settle
    settle-IsIdentified env s h =
        let s' = settle_orders env s in
        credit-IsIdentified s' (accrue_rollover env s') (accrue_rollover-orders env s')
          (accrue_rollover-draws env s')
          (settle_orders_keeps IsIdentified env (fill-IsIdentified env) s h)

    cancel_where-Fresh :
        (env : Env F) (t u : ℕ) (os : List (Order F)) → Fresh u os → Fresh u (cancel_where env t os)
    unfolding cancel_where
    cancel_where-Fresh env t u [] f = tt
    cancel_where-Fresh env t u (o ∷ os) f = (ground (arith, f.0), cancel_where-Fresh env t u os f.1)

    cancel_where-IsIdentified :
        (env : Env F) (t n : ℕ) (os : List (Order F))
        → Distinct os
        → AllDrawn n os
        → Distinct (cancel_where env t os) × AllDrawn n (cancel_where env t os)
    unfolding cancel_where
    cancel_where-IsIdentified env t n [] d a = (tt, tt)
    cancel_where-IsIdentified env t n (o ∷ os) d a =
        let rest = cancel_where-IsIdentified env t n os d.1 a.1 in
        let left = cancel_where env t os in
        let fresh = cancel_where-Fresh env t o.txid os d.0 in
        if_keeps
          (λ (r : Order F).
            (Fresh r.txid left × Distinct left) × (Drawn n r.txid × AllDrawn n left))
          (o.txid == t && is_open o.status) (mark_canceled env canceled_by_user o) o
          ((fresh, rest.0), (a.0, rest.1)) ((fresh, rest.0), (a.0, rest.1))

    cancel_many-IsIdentified :
        (env : Env F) (ts : List ℕ) (s : Exchange F)
        → IsIdentified s
        → IsIdentified (cancel_many env ts s).1
    unfolding cancel_many cancel_one
    cancel_many-IsIdentified env [] s h = h
    cancel_many-IsIdentified env (t ∷ ts) s h =
        let (d, a) = cancel_where-IsIdentified env t s.draws s.orders h.distinct h.drawn in
        cancel_many-IsIdentified env ts (cancel_one env t s).1 (record { distinct = d; drawn = a })

    module _ (never : NeverRepeats g) where
      handle-IsIdentified :
          (env : Env F) (r : Request F) (s : Exchange F)
          → env.txid_of ≡ g
          → IsIdentified s
          → IsIdentified (handle env r s).1
      unfolding handle insert_order cancel_one new_order
      handle-IsIdentified env (place p) s e h =
          add_order_cases (λ x. IsIdentified x.1) env p s (λ _. h) h
            (λ symbol v price.
              let row = new_order env p symbol v price (env.txid_of s.draws) in
              let (d, a) =
                append-IsIdentified never s.draws row s.orders (ap (λ (f : ℕ → ℕ). f s.draws) e)
                  h.distinct h.drawn in
              record { distinct = d; drawn = a })
      handle-IsIdentified env (cancel_order t) s e h = cancel_many-IsIdentified env (t ∷ []) s h
      handle-IsIdentified env (cancel_batch ts) s e h = cancel_many-IsIdentified env ts s h
      handle-IsIdentified env _ s e h = h

      -- Over any run from a book whose rows have different drawn ids, with a generator that never
      -- repeats one: no row is removed, no order's terms change, a row that was filled, canceled or
      -- expired stays as it is, and the ids stay different.
      pub run-Grows :
          (rs : List (Env F × Request F)) (s : Exchange F)
          → All (λ e. e.0.txid_of ≡ g) rs
          → IsIdentified s
          → Grows s.orders (run rs s).orders × IsIdentified (run rs s)
      unfolding run
      run-Grows [] s e h = (Grows-refl s.orders, h)
      run-Grows ((env, r) ∷ rs) s e h =
          let s' = (dispatch true env r s).1 in
          let rest =
            run-Grows rs s' e.1
              (handle-IsIdentified env r (settle env s) e.0 (settle-IsIdentified env s h)) in
          (
            Grows-trans s.orders s'.orders (run rs s').orders (dispatch-Grows env r s h.distinct)
                rest.0,
            rest.1,
          )
