-- ===== src/Paper/Cases.antt =====
-- Case rules for the operations of deepfield/paper_broker.py: a property of each outcome holds of
-- the operation.
use oracle_deepfield.Base.{
  ℕ, ◌≡◌, Bool, ◌&&◌, Option, none, some, List, [], ◌∷◌, if◌then◌else◌, if_keeps, inl, inr,
  Option-cases,
}
use oracle_deepfield.Base.Names.{Name}
use oracle_deepfield.Num.{Float, nought}
use oracle_deepfield.Paper.Types.{Reason, Order, Exchange, Env, Params}
use oracle_deepfield.Paper.Book.{
  symbol_for, bar, find_order, fill_volume, close_order, drop_order, open_long, reduce_long,
  executable, fill, is_sell, is_buy,
}
use oracle_deepfield.Paper.Settle.{
  execution, execute, settle_one, settle_rows, settle_order, settle_orders,
}
use oracle_deepfield.Paper.Placement.{
  Error, Answer, refused, validated, invalid_arguments, invalid_price, invalid_volume,
  volume_precision, post_only, unknown_pair, insert_order, add_checked, add_parsed, add_order,
  bad_tick, order_price,
}

module _ {F : Type 0} ⦃fl : Float F⦄ where
  open fl use {le, mul}

  module _ {ℓ} (P : Exchange F → Type ℓ) (env : Env F) where
    -- `_fill`: no row, a dropped sell, a buy, or a reduction.
    pub fill_cases :
        (t : ℕ) (price volume : F) (taker : Bool) (reason : Reason) (s : Exchange F)
        → (find_order t s.orders ≡ none → P s)
        → ((o : Order F) → find_order t s.orders ≡ some o → P (drop_order env o s))
        → ((o : Order F) (v gross fee : F)
            → find_order t s.orders ≡ some o
            → P (open_long env o price v gross fee (close_order env o price v gross fee reason s)))
        → ((o : Order F) (v gross fee : F)
            → find_order t s.orders ≡ some o
            → P (reduce_long env o price v fee (close_order env o price v gross fee reason s)))
        → P (fill env t price volume taker reason s)
    unfolding fill fill_volume
    fill_cases t price volume taker reason s same dropped bought reduced =
        elim (Option-cases (find_order t s.orders)) [
          | inl missing ↦ rw (missing, fill) (same missing)
          | inr (o, found) ↦
              let v = executable o volume s.positions in
              let gross = mul v price in
              let fee = mul gross (if taker then env.fee_taker_pct else env.fee_maker_pct) in
              let s' = close_order env o price v gross fee reason s in
              rw (found, fill)
                (if_keeps P (is_sell o.side && le v nought) (drop_order env o s) _ (dropped o found)
                  (if_keeps P (is_buy o.side) (open_long env o price v gross fee s')
                    (reduce_long env o price v fee s') (bought o v gross fee found)
                    (reduced o v gross fee found)))
        ]

    -- A property that every `_fill` keeps is kept by the settling of an order, and of all.
    module _
        (keeps : (t : ℕ) (price volume : F) (taker : Bool) (reason : Reason) (s : Exchange F)
          → P s
          → P (fill env t price volume taker reason s)) where
      execute_keeps :
          (r : Order F) (x : Option (F × Bool × Reason)) (s : Exchange F)
          → P s
          → P (execute env r x s)
      execute_keeps r none s v = v
      execute_keeps r (some (price, taker, reason)) s v =
          keeps r.txid price r.volume taker reason s v

      pub settle_one_keeps : (r : Order F) (s : Exchange F) → P s → P (settle_one env r s)
      unfolding settle_one
      settle_one_keeps r s v = elim (Option-cases (bar env r.symbol)) [
        | inl missing ↦ rw (missing, settle_one) v
        | inr (b, found) ↦ rw (found, settle_one) (execute_keeps r (execution env b r) s v)
      ]

      settle_rows_keeps : (rs : List (Order F)) (s : Exchange F) → P s → P (settle_rows env rs s)
      unfolding settle_rows
      settle_rows_keeps [] s v = v
      settle_rows_keeps (r ∷ rs) s v =
          settle_rows_keeps rs (settle_one env r s) (settle_one_keeps r s v)

      pub settle_orders_keeps : (s : Exchange F) → P s → P (settle_orders env s)
      unfolding settle_orders
      settle_orders_keeps s v = settle_rows_keeps (settle_order s.orders) s v

  module _ {ℓ} (P : Answer × Exchange F → Type ℓ) (env : Env F) (p : Params F)
      (s : Exchange F) where
    -- `_add_order`: refused, validated only, or a new row.
    pub add_order_cases :
        ((e : Error) → P (refused e, s))
        → P (validated, s)
        → ((symbol : Name) (volume price : F) → P (insert_order env p symbol volume price s))
        → P (add_order env p s)
    unfolding add_order add_parsed add_checked
    add_order_cases deny checked placed = elim (Option-cases (symbol_for env.margin_pair p.pair)) [
      | inl unknown ↦ rw (unknown, add_order) (deny unknown_pair)
      | inr (symbol, known) ↦ rw (known, add_order) (parsed symbol p.volume p.price)
    ]
      where
        parsed : (symbol : Name) (v x : Option F) → P (add_parsed env p symbol v x s)
        parsed symbol none x = deny invalid_arguments
        parsed symbol (some v) none = deny invalid_arguments
        parsed symbol (some v) (some x) = if_keeps P (le v nought) _ _ (deny invalid_volume) (
            if_keeps P (bad_tick env symbol p.ordertype (order_price p.ordertype x)) _ _
              (deny invalid_price)
              (if_keeps P _ _ _ (deny volume_precision)
                (if_keeps P _ _ _ (deny post_only) (if_keeps P _ _ _ checked (placed symbol v _)))))
