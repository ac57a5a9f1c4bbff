-- ===== src/Paper/Cancels.antt =====
-- CancelOrder and CancelOrderBatch of deepfield/paper_broker.py: what the count says, and that a
-- cancel is final.
use oracle_deepfield.Base.{
  ℕ, ◌≡◌, ◌≢◌, refl, ◌&&◌, none, some, List, [], ◌∷◌, arith, ◌==◌, if◌then◌else◌,
}
use oracle_deepfield.Paper.Types.{canceled_by_user, Order, Exchange, Env}
use oracle_deepfield.Paper.Book.{find_order, mark_canceled}
use oracle_deepfield.Paper.Settle.{is_open}
use oracle_deepfield.Paper.Exchange.{cancel_where, cancel_count, cancel_one}
use oracle_deepfield.Paper.Rows.{Fresh, Distinct}

module _ {F : Type 0} where
  cancel_count-Fresh : (t : ℕ) (os : List (Order F)) → Fresh t os → cancel_count t os ≡ 0
  unfolding cancel_count
  cancel_count-Fresh t [] f = refl
  cancel_count-Fresh t (o ∷ os) f = ground (arith, f.0, cancel_count-Fresh t os f.1)

  cancel_count-eq_of_find :
      (t : ℕ) (os : List (Order F))
      → Distinct os
      → cancel_count t os
        ≡ elim (find_order t os) [ none ↦ 0 | some o ↦ if is_open o.status then 1 else 0 ]
  unfolding cancel_count
  cancel_count-eq_of_find t [] d = refl
  cancel_count-eq_of_find t (o ∷ os) d =
      ground (arith, cancel_count-eq_of_find t os d.1, cancel_count-Fresh o.txid os d.0)

  find_order-cancel_where :
      (env : Env F) (t u : ℕ) (os : List (Order F))
      → find_order u (cancel_where env t os) ≡ elim (find_order u os) [
        | none ↦ none
        | some o ↦
            some
              (if o.txid == t && is_open o.status then mark_canceled env canceled_by_user o else o)
      ]
  unfolding cancel_where
  find_order-cancel_where env t u [] = refl
  find_order-cancel_where env t u (o ∷ os) = ground (arith, find_order-cancel_where env t u os)

  cancel_where-none :
      (env : Env F) (t : ℕ) (os : List (Order F))
      → cancel_count t os ≡ 0
      → cancel_where env t os ≡ os
  unfolding cancel_where cancel_count
  cancel_where-none env t [] e = refl
  cancel_where-none env t (o ∷ os) e = ground (arith, cancel_where-none env t os)

  cancel_count-cancel_where :
      (env : Env F) (t : ℕ) (os : List (Order F)) → cancel_count t (cancel_where env t os) ≡ 0
  unfolding cancel_where cancel_count
  cancel_count-cancel_where env t [] = refl
  cancel_count-cancel_where env t (o ∷ os) = ground (arith, cancel_count-cancel_where env t os)

  -- With different ids, a cancel of an order that is there counts 1 if it was open, else 0; an open
  -- order becomes canceled, a finished one stays as it is, and every other id finds what it found
  -- before.
  pub cancel_one_outcome :
      (env : Env F) (t : ℕ) (s : Exchange F) {o : Order F}
      → Distinct s.orders
      → find_order t s.orders ≡ some o
      → let (n, s') = cancel_one env t s in
        (n ≡ (if is_open o.status then 1 else 0))
        × (find_order t s'.orders
            ≡ some (if is_open o.status then mark_canceled env canceled_by_user o else o))
        × ((u : ℕ) → u ≢ t → find_order u s'.orders ≡ find_order u s.orders)
  unfolding cancel_one
  cancel_one_outcome env t s {o} d found = (
    rw (cancel_count-eq_of_find t s.orders d, found),
    rw (find_order-cancel_where env t t s.orders, found) (own t s.orders o found),
    λ u ne. rw (find_order-cancel_where env t u s.orders) (other u ne s.orders),
  )
    where
      own :
          (k : ℕ) (os : List (Order F)) (r : Order F)
          → find_order k os ≡ some r
          → some
              (if r.txid == k && is_open r.status then mark_canceled env canceled_by_user r else r)
            ≡ some (if is_open r.status then mark_canceled env canceled_by_user r else r)
      own k [] r e = cc
      own k (x ∷ os) r e = ground (arith, own k os r)

      other :
          (u : ℕ)
          → u ≢ t
          → (os : List (Order F))
          → (elim (find_order u os) [
            | none ↦ none
            | some r ↦ some (
                if r.txid == t && is_open r.status then mark_canceled env canceled_by_user r else r)
          ])
            ≡ find_order u os
      other u ne [] = refl
      other u ne (x ∷ os) = ground (arith, other u ne os)

  -- A second cancel of the same id, at any later moment, counts 0 and changes nothing.
  pub cancel_one-cancel_one :
      (env env' : Env F) (t : ℕ) (s : Exchange F)
      → cancel_one env' t (cancel_one env t s).1 ≡ (0, (cancel_one env t s).1)
  unfolding cancel_one
  cancel_one-cancel_one env env' t s =
      let gone = cancel_count-cancel_where env t s.orders in
      rw (gone, cancel_where-none env' t (cancel_where env t s.orders) gone)
