-- ===== src/Paper/Acceptance.antt =====
-- Which orders the simulated venue of deepfield/paper_broker.py accepts, and what an answer leaves
-- behind.
use oracle_deepfield.Base.{
  ℕ, ◌≡◌, refl, true, false, Option, none, some, List, [], ◌∷◌, ◌++◌, arith, ◌⊎◌, inl, inr,
  Option-cases, All, ◌==◌,
}
use oracle_deepfield.Base.Names.{Name}
use oracle_deepfield.Num.{Float, nought}
use oracle_deepfield.Paper.Types.{limit, Order, Exchange, Env, Params}
use oracle_deepfield.Paper.Book.{find_order, symbol_for, last_price}
use oracle_deepfield.Paper.Placement.{
  placed, is_post, fits_decimals, lot_decimals_of, order_price, bad_tick, crosses, post_refused,
  insert_order, add_checked, add_parsed, add_order,
}
use oracle_deepfield.Paper.Cases.{add_order_cases}

module _ {F : Type 0} ⦃fl : Float F⦄ where
  open fl use {lt, le, eq}

  -- What the venue demands of an order on the symbol, its volume and its price being numbers.
  pub record IsAcceptable (env : Env F) (p : Params F) (symbol : Name) (volume price : F)
      : Type 0 where
    pub known : symbol_for env.margin_pair p.pair ≡ some symbol
    pub volume_given : p.volume ≡ some volume
    pub price_given : p.price ≡ some price
    pub positive : le volume nought ≡ false
    pub tick : bad_tick env symbol p.ordertype (order_price p.ordertype price) ≡ false
    pub lots : fits_decimals (lot_decimals_of env symbol) volume ≡ true
    pub maker : post_refused p (order_price p.ordertype price) (last_price env symbol) ≡ false
    pub real : p.validate ≡ false

  -- Any answer but a placement leaves the book as it was, ids included.
  pub add_order_atomic :
      (env : Env F) (p : Params F) (s : Exchange F)
      → ((t : ℕ) × ((add_order env p s).0 ≡ placed t)) ⊎ ((add_order env p s).1 ≡ s)
  unfolding insert_order
  add_order_atomic env p s =
      add_order_cases (λ r. ((t : ℕ) × (r.0 ≡ placed t)) ⊎ (r.1 ≡ s)) env p s (λ e. inr refl)
        (inr refl) (λ symbol volume price. inl (env.txid_of s.draws, refl))

  module _ (env : Env F) (p : Params F) (s : Exchange F) where
    checked_needs :
        (symbol : Name) (volume price : F) (t : ℕ)
        → symbol_for env.margin_pair p.pair ≡ some symbol
        → p.volume ≡ some volume
        → p.price ≡ some price
        → (add_checked env p symbol volume (order_price p.ordertype price) s).0 ≡ placed t
        → IsAcceptable env p symbol volume price
    unfolding add_checked
    checked_needs symbol volume price t k v x e = ground arith

    parsed_needs :
        (symbol : Name) (volume price : Option F) (t : ℕ)
        → symbol_for env.margin_pair p.pair ≡ some symbol
        → p.volume ≡ volume
        → p.price ≡ price
        → (add_parsed env p symbol volume price s).0 ≡ placed t
        → (v : F) × (x : F) × IsAcceptable env p symbol v x
    unfolding add_parsed
    parsed_needs symbol none price t k v x e = cc
    parsed_needs symbol (some volume) none t k v x e = cc
    parsed_needs symbol (some volume) (some price) t k v x e =
        (volume, price, checked_needs symbol volume price t k v x e)

    -- Only an acceptable order is placed: a known pair, a positive volume on the pair's lot grid, a
    -- price on its tick grid, no post-only order that would cross, and no mere validation.
    pub add_order_needs :
        (t : ℕ)
        → (add_order env p s).0 ≡ placed t
        → (symbol : Name) × (volume : F) × (price : F) × IsAcceptable env p symbol volume price
    unfolding add_order
    add_order_needs t e = elim (Option-cases (symbol_for env.margin_pair p.pair)) [
      | inl unknown ↦ absurd (ground arith)
      | inr (symbol, known) ↦
          let (v, x, a) = parsed_needs symbol p.volume p.price t known refl refl (ground arith) in
          (symbol, v, x, a)
    ]

  -- A resting post-only limit order never crosses the last price: a buy rests at most at it, a sell
  -- at least at it.
  pub add_order_post_only :
      (env : Env F) (p : Params F) {symbol : Name} {volume price last : F}
      → IsAcceptable env p symbol volume price
      → last_price env symbol ≡ some last
      → is_post p.oflags ≡ true
      → p.ordertype ≡ limit
      → crosses p.side price last ≡ false
  unfolding post_refused
  add_order_post_only env p a found post kind = ground (arith, a)

  -- With a fresh id the placed order is what a query by that id finds.
  pub find_order-append :
      (t : ℕ) (os : List (Order F)) (row : Order F)
      → All (λ (r : Order F). (r.txid == t) ≡ false) os
      → row.txid ≡ t
      → find_order t (os ++ row ∷ []) ≡ some row
  find_order-append t [] row fresh e = ground arith
  find_order-append t (r ∷ rs) row fresh e = ground (arith, find_order-append t rs row fresh.1 e)
