-- ===== src/Paper/Rows.antt =====
-- Rows of paper_orders under the updates of deepfield/paper_broker.py: what may change in a row,
-- which rows an update by id reaches, and rows with pairwise different ids.
use oracle_deepfield.Base.{
  ℕ, ◌≡◌, refl, Bool, true, false, not, List, [], ◌∷◌, ◌++◌, arith, ◌==◌, ◌⊎◌, inl, inr, All,
  All-append, keep, Bool-cases, if_keeps, if_splits,
}
use oracle_deepfield.Paper.Types.{Order}
use oracle_deepfield.Paper.Book.{update_order}
use oracle_deepfield.Paper.Settle.{is_open, is_stop, resting, settle_order}

module _ {F : Type 0} where
  -- The terms of an order: what was sent, and when.
  pub record SameTerms (a b : Order F) : Type 0 where
    pub txid : b.txid ≡ a.txid
    pub userref : b.userref ≡ a.userref
    pub pair : b.pair ≡ a.pair
    pub symbol : b.symbol ≡ a.symbol
    pub side : b.side ≡ a.side
    pub ordertype : b.ordertype ≡ a.ordertype
    pub price : b.price ≡ a.price
    pub volume : b.volume ≡ a.volume
    pub leverage : b.leverage ≡ a.leverage
    pub oflags : b.oflags ≡ a.oflags
    pub opentm : b.opentm ≡ a.opentm

  pub SameTerms-refl : (a : Order F) → SameTerms a a
  SameTerms-refl a = ground arith

  SameTerms-trans : (a b c : Order F) → SameTerms a b → SameTerms b c → SameTerms a c
  SameTerms-trans a b c h k = ground arith

  -- From row a to row b: the terms stay, and a row that is not open stays as it is.
  abbrev pub Evolves : Order F → Order F → Type 0
  Evolves a b = SameTerms a b × ((is_open a.status ≡ true) ⊎ (b ≡ a))

  Evolves-trans : (a b c : Order F) → Evolves a b → Evolves b c → Evolves a c
  Evolves-trans a b c (h, inl open_a) (k, _) = (SameTerms-trans a b c h k, inl open_a)
  Evolves-trans a b c (h, inr e) (k, later) = (SameTerms-trans a b c h k, ground arith)

  -- Row by row, and rows may be added at the end: none is ever removed.
  abbrev pub Grows : List (Order F) → List (Order F) → Type 0
  Grows [] bs = Unit {0}
  Grows (a ∷ as') [] = ⊥
  Grows (a ∷ as') (b ∷ bs) = Evolves a b × Grows as' bs

  pub Grows-refl : (as' : List (Order F)) → Grows as' as'
  Grows-refl [] = tt
  Grows-refl (a ∷ as') = ((SameTerms-refl a, inr refl), Grows-refl as')

  pub Grows-trans : (as' bs cs : List (Order F)) → Grows as' bs → Grows bs cs → Grows as' cs
  Grows-trans [] bs cs h k = tt
  Grows-trans (a ∷ as') [] cs h k = elim h [ ]
  Grows-trans (a ∷ as') (b ∷ bs) [] h k = elim k [ ]
  Grows-trans (a ∷ as') (b ∷ bs) (c ∷ cs) h k =
      (Evolves-trans a b c h.0 k.0, Grows-trans as' bs cs h.1 k.1)

  pub Grows-append : (as' bs : List (Order F)) → Grows as' (as' ++ bs)
  Grows-append [] bs = tt
  Grows-append (a ∷ as') bs = ((SameTerms-refl a, inr refl), Grows-append as' bs)

  -- Every row with the id t is open.
  abbrev pub OpenAt : ℕ → List (Order F) → Type 0
  OpenAt t = All (λ o. ((o.txid == t) ≡ false) ⊎ (is_open o.status ≡ true))

  -- No row has the id t; no two rows have the same id.
  abbrev pub Fresh : ℕ → List (Order F) → Type 0
  Fresh t = All (λ o. (o.txid == t) ≡ false)

  abbrev pub Distinct : List (Order F) → Type 0
  Distinct [] = Unit {0}
  Distinct (o ∷ os) = Fresh o.txid os × Distinct os

  -- An update that changes no term.
  abbrev pub KeepsTerms : (Order F → Order F) → Type 0
  KeepsTerms f = (o : Order F) → SameTerms o (f o)

  pub update_order-Grows :
      (t : ℕ) (f : Order F → Order F) (os : List (Order F))
      → KeepsTerms f
      → OpenAt t os
      → Grows os (update_order t f os)
  unfolding update_order
  update_order-Grows t f [] k h = tt
  update_order-Grows t f (o ∷ os) k h =
      (ground (arith, h.0, k o, SameTerms-refl o), update_order-Grows t f os k h.1)

  pub update_order-OpenAt :
      (t u : ℕ) (f : Order F → Order F) (os : List (Order F))
      → KeepsTerms f
      → (u == t) ≡ false
      → OpenAt u os
      → OpenAt u (update_order t f os)
  unfolding update_order
  update_order-OpenAt t u f [] k ne h = tt
  update_order-OpenAt t u f (o ∷ os) k ne h =
      (ground (arith, h.0, k o), update_order-OpenAt t u f os k ne h.1)

  pub update_order-Fresh :
      (t u : ℕ) (f : Order F → Order F) (os : List (Order F))
      → KeepsTerms f
      → Fresh u os
      → Fresh u (update_order t f os)
  unfolding update_order
  update_order-Fresh t u f [] k h = tt
  update_order-Fresh t u f (o ∷ os) k h =
      (ground (arith, h.0, k o), update_order-Fresh t u f os k h.1)

  pub update_order-Distinct :
      (t : ℕ) (f : Order F → Order F) (os : List (Order F))
      → KeepsTerms f
      → Distinct os
      → Distinct (update_order t f os)
  unfolding update_order
  update_order-Distinct t f [] k h = tt
  update_order-Distinct t f (o ∷ os) k h =
      let rest = update_order-Fresh t o.txid f os k h.0 in
      (ground (arith, rest, k o), update_order-Distinct t f os k h.1)

  Fresh-keep : (t : ℕ) (p : Order F → Bool) (os : List (Order F)) → Fresh t os → Fresh t (keep p os)
  Fresh-keep t p [] h = tt
  Fresh-keep t p (o ∷ os) h = ground (arith, h.0, Fresh-keep t p os h.1)

  Distinct-keep : (p : Order F → Bool) (os : List (Order F)) → Distinct os → Distinct (keep p os)
  Distinct-keep p [] h = tt
  Distinct-keep p (o ∷ os) h = ground (arith, Fresh-keep o.txid p os h.0, Distinct-keep p os h.1)

  Distinct-middle :
      (o : Order F) (as' bs : List (Order F))
      → Fresh o.txid (as' ++ bs)
      → Distinct (as' ++ bs)
      → Distinct (as' ++ o ∷ bs)
  Distinct-middle o [] bs f d = (f, d)
  Distinct-middle o (a ∷ as') bs f d =
      (Fresh-middle a.txid o as' bs (ground (arith, f.0)) d.0, Distinct-middle o as' bs f.1 d.1)
    where
      Fresh-middle :
          (t : ℕ) (x : Order F) (xs ys : List (Order F))
          → (x.txid == t) ≡ false
          → Fresh t (xs ++ ys)
          → Fresh t (xs ++ x ∷ ys)
      Fresh-middle t x [] ys e h = (e, h)
      Fresh-middle t x (y ∷ xs) ys e h = (h.0, Fresh-middle t x xs ys e h.1)

  -- The rows with a property and then the rows without it.
  abbrev split_by : (Order F → Bool) → List (Order F) → List (Order F)
  split_by p os = keep p os ++ keep (λ o. not (p o)) os

  All-split :
      (P : Order F → Type 0) (p : Order F → Bool) (os : List (Order F))
      → All P os
      → All P (split_by p os)
  All-split P p os h = All-append P (keep p os) _ (All-keep p os h) (All-keep (λ o. not (p o)) os h)
    where
      All-keep : (q : Order F → Bool) (xs : List (Order F)) → All P xs → All P (keep q xs)
      All-keep q [] g = tt
      All-keep q (x ∷ xs) g =
          if_keeps (All P) (q x) _ _ (g.0, All-keep q xs g.1) (All-keep q xs g.1)

  Distinct-split :
      (p : Order F → Bool) (os : List (Order F)) → Distinct os → Distinct (split_by p os)
  Distinct-split p [] h = tt
  Distinct-split p (o ∷ os) h = elim (Bool-cases (p o)) [
    | inl in_first ↦
        rw in_first (All-split (λ r. (r.txid == o.txid) ≡ false) p os h.0, Distinct-split p os h.1)
    | inr in_second ↦ rw in_second (
        Distinct-middle o (keep p os) (keep (λ r. not (p r)) os)
          (All-split (λ r. (r.txid == o.txid) ≡ false) p os h.0) (Distinct-split p os h.1))
  ]

  -- Every open row is the only one with its id.
  resting-OpenAt : (os : List (Order F)) → Distinct os → All (λ r. OpenAt r.txid os) (resting os)
  unfolding resting
  resting-OpenAt [] h = tt
  resting-OpenAt (o ∷ os) h =
      let later = rest (resting-OpenAt os h.1) in
      if_splits (All (λ r. OpenAt r.txid (o ∷ os))) (is_open o.status) (o ∷ resting os) (resting os)
        (λ open_o. ((inr open_o, Fresh-OpenAt os h.0), later)) (λ _. later)
    where
      Fresh-OpenAt : (xs : List (Order F)) → Fresh o.txid xs → OpenAt o.txid xs
      Fresh-OpenAt [] f = tt
      Fresh-OpenAt (x ∷ xs) f = (inl f.0, Fresh-OpenAt xs f.1)

      join :
          (rs : List (Order F))
          → Fresh o.txid rs
          → All (λ r. OpenAt r.txid os) rs
          → All (λ r. OpenAt r.txid (o ∷ os)) rs
      join [] f g = tt
      join (r ∷ rs) f g = ((inl (ground (arith, f.0)), g.0), join rs f.1 g.1)

      rest :
          All (λ r. OpenAt r.txid os) (resting os) → All (λ r. OpenAt r.txid (o ∷ os)) (resting os)
      rest = join (resting os) (Fresh-keep o.txid (λ r. is_open r.status) os h.0)

  -- The rows that a settling walks are open ones with different ids.
  pub settle_order-Pending :
      (os : List (Order F))
      → Distinct os
      → Distinct (settle_order os) × All (λ r. OpenAt r.txid os) (settle_order os)
  unfolding settle_order resting
  settle_order-Pending os h = (
    Distinct-split (λ o. is_stop o.ordertype) (resting os)
        (Distinct-keep (λ o. is_open o.status) os h),
    All-split (λ r. OpenAt r.txid os) (λ o. is_stop o.ordertype) (resting os) (resting-OpenAt os h),
  )
