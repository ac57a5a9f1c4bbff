-- ===== src/Vol/Bounds.antt =====
-- What the table of deepfield/vol.py promises: the ruling's bounds on every distance, the stop
-- inside the liquidation distance, where each row comes from, and the resolver on a fresh table.
use oracle_deepfield.Base.{
  ◌≡◌, refl, sym, ◌∙◌, ap, true, false, Option, none, some, List, [], ◌∷◌, ◌⊎◌, inl, inr, arith,
  if_keeps, if_splits, Bool-cases, Option-cases,
}
use oracle_deepfield.Base.Names.{Name, name_eq, name_eq→eq, name_lookup}
use oracle_deepfield.Num.{Float, nought, of_ℕ}
use oracle_deepfield.Num.Laws.{IsOrdered}
use oracle_deepfield.Vol.Ruling.{
  Distances, LiqConfig, clamp, tp_floor, tp_cap, tp_mult, sl_floor, sl_cap, sl_mult, rung_floor,
  rung_cap, atr_pct, gate_a, liq_distance_pct, should_ship, resolve, sane_atr,
}
use oracle_deepfield.Vol.Table.{
  Source, Row, Inputs, legacy_tp_pct, legacy_sl_pct, legacy_rung_pct, fallback_for, choose_row,
  gate_d, measured_row, build_row, build_table, distances, is_complete, fallback_tp_of,
}

module _ {F : Type 0} ⦃fl : Float F⦄ where
  open fl use {mul, div, lt, le, eq}

  abbrev pub Within : F → F → F → Type 0
  Within lo hi x = (le lo x ≡ true) × (le x hi ≡ true)

module _ (F : Type 0) ⦃fl : Float F⦄ where
  open fl use {le, eq}

  -- The order of the literals: each floor is at most its cap, and the old distances lie between.
  pub record HasBounds : Type 0 where
    pub tp_order : le tp_floor tp_cap ≡ true
    pub sl_order : le sl_floor sl_cap ≡ true
    pub rung_order : le rung_floor rung_cap ≡ true
    pub numbers :
        (eq tp_floor tp_floor ≡ true)
        × (eq tp_cap tp_cap ≡ true)
        × (eq sl_floor sl_floor ≡ true)
        × (eq sl_cap sl_cap ≡ true)
        × (eq rung_floor rung_floor ≡ true)
        × (eq rung_cap rung_cap ≡ true)
    pub legacy_tp : Within {F = F} tp_floor tp_cap legacy_tp_pct
    pub legacy_sl : Within {F = F} sl_floor sl_cap legacy_sl_pct
    pub legacy_rung : Within {F = F} rung_floor rung_cap legacy_rung_pct

module _ {F : Type 0} ⦃fl : Float F⦄ where
  open fl use {mul, div, lt, le, eq}

  -- The three distances are within the ruling's floors and caps.
  abbrev pub IsBounded : Distances F → Type 0
  IsBounded d =
      Within tp_floor tp_cap d.tp_pct
      × Within sl_floor sl_cap d.sl_pct
      × Within rung_floor rung_cap d.rung_pct

  -- VOL_LIQ_SAFETY_FRAC of the distance to liquidation at a leverage.
  abbrev pub ceiling_at : LiqConfig F → F → F
  ceiling_at cfg lev = mul (div (of_ℕ 60) lev) cfg.safety_frac

  liq_distance-pos :
      (lev : F) → lt nought lev ≡ true → liq_distance_pct (some lev) ≡ some (div (of_ℕ 60) lev)
  unfolding liq_distance_pct
  liq_distance-pos lev h = ground arith

  module _ (o : IsOrdered F) where
    -- NaN included: Python's `max(lo, nan)` is lo.
    clamp-Within :
        (v lo hi : F)
        → le lo hi ≡ true
        → eq lo lo ≡ true
        → eq hi hi ≡ true
        → Within lo hi (clamp v lo hi)
    unfolding clamp
    clamp-Within v lo hi h nl nh = ground (
      arith,
      o.le_refl lo nl,
      o.le_refl hi nh,
      o.lt→le lo v,
      o.lt→le lo hi,
      o.lt_numbers lo v,
      o.le_of_not-lt hi v,
    )

    clamp_number :
        (v lo hi : F)
        → eq lo lo ≡ true
        → eq hi hi ≡ true
        → eq (clamp v lo hi) (clamp v lo hi) ≡ true
    unfolding clamp
    clamp_number v lo hi nl nh = ground (arith, o.lt_numbers lo v)

    gate_a_safe :
        (cfg : LiqConfig F) (liq sl : F)
        → cfg.clamp_on ≡ true
        → eq liq nought ≡ false
        → (ceiling : F) → ceiling ≡ mul liq cfg.safety_frac
        → eq ceiling ceiling ≡ true
        → le sl_floor sl ≡ true
        → eq sl sl ≡ true
        → (((gate_a cfg (some liq) sl).0 ≡ sl_floor)
            ⊎ (le (gate_a cfg (some liq) sl).0 ceiling ≡ true))
          × (le (gate_a cfg (some liq) sl).0 sl ≡ true)
          × ((gate_a cfg (some liq) sl).1 ≡ lt ceiling sl)
    unfolding gate_a
    gate_a_safe cfg liq sl on nz ceiling ec nc lo ns = ground (
      arith,
      o.le_refl sl ns,
      o.le_refl ceiling nc,
      o.lt→le ceiling sl,
      o.le_of_not-lt ceiling sl nc ns,
    )

    gate_a_below :
        (cfg : LiqConfig F) (liq : Option F) (sl : F)
        → Within sl_floor sl_cap sl
        → eq sl_floor sl_floor ≡ true
        → (le sl_floor (gate_a cfg liq sl).0 ≡ true) × (le (gate_a cfg liq sl).0 sl_cap ≡ true)
    unfolding gate_a
    gate_a_below cfg none sl w n = w
    gate_a_below cfg (some liq) sl w n =
        let ceiling = mul liq cfg.safety_frac in
        ground (
          arith,
          o.le_refl sl_floor n,
          o.lt→le sl_floor ceiling,
          o.lt→le ceiling sl,
          o.le_trans ceiling sl sl_cap,
          o.le_trans sl_floor sl sl_cap,
        )

  module _ (o : IsOrdered F) (b : HasBounds F) where
    -- The distances that `resolve` gives are within the floors and caps, whatever the ATR (NaN
    -- included) and the leverage.
    pub resolve-IsBounded :
        (cfg : LiqConfig F) (atr : F) (leverage : Option F) → IsBounded (resolve cfg atr leverage)
    unfolding resolve
    resolve-IsBounded cfg atr leverage =
        let (n1, n2, n3, n4, n5, n6) = b.numbers in
        (
          clamp-Within o _ _ _ b.tp_order n1 n2,
          gate_a_below o cfg (liq_distance_pct leverage) (clamp (mul sl_mult atr) sl_floor sl_cap)
              (clamp-Within o _ _ _ b.sl_order n3 n4) n3,
          clamp-Within o _ _ _ b.rung_order n5 n6,
        )

    choose_row-IsBounded :
        (i : Inputs F) (symbol : Name) (leverage atr : Option F)
        → IsBounded (choose_row i symbol leverage atr).dist
    unfolding choose_row fallback_for
    choose_row-IsBounded i symbol leverage none = resolve-IsBounded i.cfg _ leverage
    choose_row-IsBounded i symbol leverage (some atr) =
        if_keeps (λ r. IsBounded r.dist) (sane_atr (some atr)) (measured_row i atr leverage)
          (fallback_for i symbol leverage) (resolve-IsBounded i.cfg atr leverage)
          (resolve-IsBounded i.cfg _ leverage)

    gate_d-IsBounded : (r : Row F) → IsBounded r.dist → IsBounded (gate_d r).dist
    unfolding gate_d
    gate_d-IsBounded r h =
        if_keeps (λ x. IsBounded x.dist) r.ships r
          (record r {
            dist = record (r.dist) {
              tp_pct = legacy_tp_pct;
              sl_pct = legacy_sl_pct;
              rung_pct = legacy_rung_pct;
            };
            source = Source.legacy;
          })
          h (b.legacy_tp, b.legacy_sl, b.legacy_rung)

    -- Every row that `build_table` writes has its three distances within the floors and caps,
    -- whatever the candles of the pair, its leverage and the table of fallbacks. The literals have
    -- their order, and each old distance lies between its floor and cap.
    pub build_row-IsBounded : (i : Inputs F) (symbol : Name) → IsBounded (build_row i symbol).dist
    unfolding build_row
    build_row-IsBounded i symbol = gate_d-IsBounded _ (
        choose_row-IsBounded i symbol (name_lookup symbol i.per_pair_leverage)
          (atr_pct (i.candles symbol)))

    -- Gate A: with the clamp on and a leverage above 0 whose liquidation distance is not 0, the stop
    -- of `resolve` is within the safe fraction of that distance or at its floor, it never exceeds the
    -- unclamped stop, and the flag is set exactly where the unclamped stop was beyond that fraction.
    -- The fraction of the distance is a number, not NaN.
    pub resolve-gate_a :
        (cfg : LiqConfig F) (atr lev : F)
        → cfg.clamp_on ≡ true
        → lt nought lev ≡ true
        → eq (div (of_ℕ 60) lev) nought ≡ false
        → eq (ceiling_at cfg lev) (ceiling_at cfg lev) ≡ true
        → (((resolve cfg atr (some lev)).sl_pct ≡ sl_floor)
            ⊎ (le (resolve cfg atr (some lev)).sl_pct (ceiling_at cfg lev) ≡ true))
          × (le (resolve cfg atr (some lev)).sl_pct (resolve cfg atr (some lev)).sl_raw_pct ≡ true)
          × ((resolve cfg atr (some lev)).liq_clamped
              ≡ lt (ceiling_at cfg lev) (resolve cfg atr (some lev)).sl_raw_pct)
    unfolding resolve
    resolve-gate_a cfg atr lev on pos nz nc =
        let (n1, n2, n3, n4, n5, n6) = b.numbers in
        let (lo, hi) = clamp-Within o (mul sl_mult atr) sl_floor sl_cap b.sl_order n3 n4 in
        rw (liq_distance-pos lev pos) (
          gate_a_safe o cfg (div (of_ℕ 60) lev) (clamp (mul sl_mult atr) sl_floor sl_cap) on nz
            (ceiling_at cfg lev) refl nc lo
            (clamp_number o (mul sl_mult atr) sl_floor sl_cap n3 n4))

  -- What a row says of itself is true: a measured row is the ruling at a sane ATR of the candles of
  -- its pair, a fallback row the ruling at the ATR its fallback target implies, both shipped by
  -- gate D, and a row on the old settings carries the three old distances.
  abbrev pub IsSourced : Inputs F → Name → Row F → Type 0
  IsSourced i symbol r = elim r.source [
    | Source.measured ↦
        (atr : F) × (atr_pct (i.candles symbol) ≡ some atr)
        × (sane_atr (some atr) ≡ true)
        × (r.dist ≡ resolve i.cfg atr r.leverage)
        × (should_ship r.rr ≡ true)
    | Source.fallback ↦
        (sane_atr (atr_pct (i.candles symbol)) ≡ false)
        × (r.tp_pct ≡ clamp (mul tp_mult (div (fallback_tp_of i symbol) tp_mult)) tp_floor tp_cap)
        × (should_ship r.rr ≡ true)
    | Source.legacy ↦
        (r.tp_pct ≡ legacy_tp_pct) × (r.sl_pct ≡ legacy_sl_pct) × (r.rung_pct ≡ legacy_rung_pct)
  ]

  ships_lem :
      (cfg : LiqConfig F) (atr : F) (leverage : Option F)
      → (resolve cfg atr leverage).ships ≡ should_ship (resolve cfg atr leverage).rr
  unfolding resolve
  ships_lem cfg atr leverage = refl

  tp_pct_lem :
      (cfg : LiqConfig F) (atr : F) (leverage : Option F)
      → (resolve cfg atr leverage).tp_pct ≡ clamp (mul tp_mult atr) tp_floor tp_cap
  unfolding resolve
  tp_pct_lem cfg atr leverage = refl

  abbrev held : Row F → Row F
  held r = record r {
    dist = record (r.dist) {
      tp_pct = legacy_tp_pct;
      sl_pct = legacy_sl_pct;
      rung_pct = legacy_rung_pct;
    };
    source = Source.legacy;
  }

  gate_d-IsSourced :
      (i : Inputs F) (symbol : Name) (r : Row F)
      → (r.ships ≡ true → IsSourced i symbol r)
      → IsSourced i symbol (gate_d r)
  unfolding gate_d
  gate_d-IsSourced i symbol r h =
      if_splits (IsSourced i symbol) r.ships r (held r) h (λ x. (refl, refl, refl))

  gate_d-measured :
      (i : Inputs F) (symbol : Name) (leverage : Option F) (atr : F)
      → atr_pct (i.candles symbol) ≡ some atr
      → sane_atr (some atr) ≡ true
      → IsSourced i symbol (gate_d (measured_row i atr leverage))
  gate_d-measured i symbol leverage atr e s =
      gate_d-IsSourced i symbol (measured_row i atr leverage)
        (λ h. (atr, e, s, refl, sym (ships_lem i.cfg atr leverage) ∙ h))

  gate_d-fallback :
      (i : Inputs F) (symbol : Name) (leverage : Option F)
      → sane_atr (atr_pct (i.candles symbol)) ≡ false
      → IsSourced i symbol (gate_d (fallback_for i symbol leverage))
  unfolding fallback_for
  gate_d-fallback i symbol leverage s =
      let atr = div (fallback_tp_of i symbol) tp_mult in
      gate_d-IsSourced i symbol (fallback_for i symbol leverage)
        (λ h. (s, tp_pct_lem i.cfg atr leverage, sym (ships_lem i.cfg atr leverage) ∙ h))

  -- The row that `build_table` writes for a pair is what its source says: measured only at a sane
  -- ATR of the pair's candles, a fallback only where they give none, shipped only at a reward to
  -- risk that is not below 0.40, and the three old distances otherwise.
  pub build_row-IsSourced : (i : Inputs F) (symbol : Name) → IsSourced i symbol (build_row i symbol)
  unfolding build_row choose_row sane_atr
  build_row-IsSourced i symbol =
      let lev = name_lookup symbol i.per_pair_leverage in
      elim (Option-cases (atr_pct (i.candles symbol))) [
        | inl e ↦ rw e (gate_d-fallback i symbol lev (ap sane_atr e))
        | inr (atr, e) ↦ rw e (
            if_splits (λ r. IsSourced i symbol (gate_d r)) (sane_atr (some atr))
              (measured_row i atr lev) (fallback_for i symbol lev)
              (λ s. gate_d-measured i symbol lev atr e s)
              (λ s. gate_d-fallback i symbol lev (ap sane_atr e ∙ s)))
      ]

  lookup-build_table :
      (i : Inputs F) (pairs : List Name) (symbol : Name)
      → (name_lookup symbol (build_table i pairs) ≡ none)
        ⊎ (name_lookup symbol (build_table i pairs) ≡ some (build_row i symbol))
  unfolding build_table
  lookup-build_table i [] symbol = inl refl
  lookup-build_table i (p ∷ pairs) symbol = elim (Bool-cases (name_eq p symbol)) [
    | inl h ↦ rw h (inr (ap (λ s. some (build_row i s)) (name_eq→eq p symbol h)))
    | inr h ↦ rw h (lookup-build_table i pairs symbol)
  ]

  -- The resolver on a table built from the same inputs gives the row of the pair itself, whether or
  -- not the table has the pair.
  pub distances-build_table :
      (i : Inputs F) (pairs : List Name) (symbol : Name)
      → distances i (build_table i pairs) symbol ≡ build_row i symbol
  unfolding distances
  distances-build_table i pairs symbol = elim (lookup-build_table i pairs symbol) [
    | inl e ↦ rw (e, distances) refl
    | inr e ↦
        rw (e, distances)
          (if_keeps (λ r. r ≡ build_row i symbol) (is_complete (build_row i symbol))
            (build_row i symbol) (build_row i symbol) refl refl)
  ]
