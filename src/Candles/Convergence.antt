-- ===== src/Candles/Convergence.antt =====
-- A second pass of `gap_heal` of deepfield/reconciler.py on the same replies finds nothing to do.
use oracle_deepfield.Base.{
  ℕ, ◌+◌, ◌≡◌, refl, sym, ap, ◌∙◌, true, false, ◌||◌, some, List, [], ◌∷◌, ◌++◌, arith, if_keeps,
  if_splits, Option-cases, inl, inr, take_last, All, map,
}
use oracle_deepfield.Base.Names.{Name}
use oracle_deepfield.Num.{Float}
use oracle_deepfield.Candles.Table.{Bar, Key, same_key, key_of, upsert_candle, find_bar}
use oracle_deepfield.Candles.Heal.{
  RestRow, Venue, rest_name, bar_of, same_values, one_if, heal_found, heal_bar, heal_rows,
  heal_intervals, gap_heal,
}
use oracle_deepfield.Candles.Series.{find_bar-upsert_candle, find_bar-upsert_other}

module _ {F : Type 0} where
  -- The bars of one pair's replies, and of a whole pass, in the order in which they are compared.
  abbrev pub arrivals_of : Venue F → ℕ → Name → List ℕ → List (Bar F)
  arrivals_of src recent ws [] = []
  arrivals_of src recent ws (i ∷ is) =
      map (bar_of ws i (src.now ws i)) (take_last recent (src.fetch_ohlc (rest_name src ws) i))
      ++ arrivals_of src recent ws is

  abbrev pub arrivals : Venue F → ℕ → List Name → List ℕ → List (Bar F)
  arrivals src recent [] intervals = []
  arrivals src recent (ws ∷ symbols) intervals =
      arrivals_of src recent ws intervals ++ arrivals src recent symbols intervals

  -- No two bars have one key.
  abbrev pub DistinctKeys : List (Bar F) → Type 0
  DistinctKeys [] = Unit {0}
  DistinctKeys (b ∷ bs) =
      All (λ (c : Bar F). same_key (key_of c) (key_of b) ≡ false) bs × DistinctKeys bs

module _ {F : Type 0} ⦃fl : Float F⦄ where
  -- The numbers of a bar equal themselves: none is NaN.
  abbrev pub IsSolid : Bar F → Type 0
  IsSolid b = same_values b b ≡ true

  -- A bar with the key and the values of b stands in the table.
  abbrev Held : List (Bar F) → Bar F → Type 0
  Held t b = (old : Bar F) × (find_bar (key_of b) t ≡ some old) × (same_values old b ≡ true)

  -- A pass as one loop.
  unfoldable heal_all : List (Bar F) → List (Bar F) → List (Bar F) × ℕ
  unfolding heal_bar
  heal_all [] t = (t, 0)
  heal_all (b ∷ bs) t = let (t', n) = heal_bar b t in let (t'', m) = heal_all bs t' in (t'', n + m)

  heal_all-append :
      (bs cs t : List (Bar F))
      → heal_all (bs ++ cs) t
        ≡ ((heal_all cs (heal_all bs t).0).0, (heal_all bs t).1 + (heal_all cs (heal_all bs t).0).1)
  unfolding heal_all
  heal_all-append [] cs t =
      let n = (heal_all cs t).1 in
      let e : n ≡ 0 + n = omega arith in ap (λ m. ((heal_all cs t).0, m)) e
  heal_all-append (b ∷ bs) cs t =
      let s = (heal_bar b t).0 in
      let last = heal_all cs (heal_all bs s).0 in
      rw (heal_all-append bs cs s) (ap (λ n. (last.0, n)) (omega arith))

  heal_rows-heal_all :
      (ws : Name) (i now : ℕ) (rs : List (RestRow F)) (t : List (Bar F))
      → heal_rows ws i now rs t ≡ heal_all (map (bar_of ws i now) rs) t
  unfolding heal_rows heal_all
  heal_rows-heal_all ws i now [] t = refl
  heal_rows-heal_all ws i now (r ∷ rs) t =
      rw (heal_rows-heal_all ws i now rs (heal_bar (bar_of ws i now r) t).0) refl

  heal_intervals-heal_all :
      (src : Venue F) (recent : ℕ) (ws : Name) (is : List ℕ) (t : List (Bar F))
      → heal_intervals src recent ws is t ≡ heal_all (arrivals_of src recent ws is) t
  unfolding heal_intervals heal_all
  heal_intervals-heal_all src recent ws [] t = refl
  heal_intervals-heal_all src recent ws (i ∷ is) t =
      let rows = take_last recent (src.fetch_ohlc (rest_name src ws) i) in
      rw
        (
          heal_rows-heal_all ws i (src.now ws i) rows t,
          heal_intervals-heal_all src recent ws is
              (heal_all (map (bar_of ws i (src.now ws i)) rows) t).0,
        )
        (sym (
          heal_all-append (map (bar_of ws i (src.now ws i)) rows) (arrivals_of src recent ws is) t))

  gap_heal-heal_all :
      (src : Venue F) (recent : ℕ) (symbols : List Name) (is : List ℕ) (t : List (Bar F))
      → gap_heal src recent symbols is t ≡ heal_all (arrivals src recent symbols is) t
  unfolding gap_heal heal_all
  gap_heal-heal_all src recent [] is t = refl
  gap_heal-heal_all src recent (ws ∷ symbols) is t =
      rw
        (
          heal_intervals-heal_all src recent ws is t,
          gap_heal-heal_all src recent symbols is (heal_all (arrivals_of src recent ws is) t).0,
        )
        (sym (heal_all-append (arrivals_of src recent ws is) (arrivals src recent symbols is) t))

  -- A row of another key.
  find_bar-heal_bar :
      (k : Key) (b : Bar F) (t : List (Bar F))
      → same_key (key_of b) k ≡ false
      → find_bar k (heal_bar b t).0 ≡ find_bar k t
  unfolding heal_bar heal_found
  find_bar-heal_bar k b t h = elim (Option-cases (find_bar (key_of b) t)) [
    | inl e ↦ rw e (find_bar-upsert_other k b t h)
    | inr (old, e) ↦ rw e (
        if_keeps (λ (r : List (Bar F) × ℕ). find_bar k r.0 ≡ find_bar k t) (same_values old b)
          (t, 0) (upsert_candle b t, one_if (old.closed || b.closed)) refl
          (find_bar-upsert_other k b t h))
  ]

  find_bar-heal_all :
      (k : Key) (bs t : List (Bar F))
      → All (λ (c : Bar F). same_key (key_of c) k ≡ false) bs
      → find_bar k (heal_all bs t).0 ≡ find_bar k t
  unfolding heal_all
  find_bar-heal_all k [] t h = refl
  find_bar-heal_all k (b ∷ bs) t h =
      find_bar-heal_all k bs (heal_bar b t).0 h.1 ∙ find_bar-heal_bar k b t h.0

  heal_bar-Held : (b : Bar F) (t : List (Bar F)) → IsSolid b → Held (heal_bar b t).0 b
  unfolding heal_bar heal_found
  heal_bar-Held b t s = elim (Option-cases (find_bar (key_of b) t)) [
    | inl e ↦ rw e (b, find_bar-upsert_candle b t, s)
    | inr (old, e) ↦ rw e (
        if_splits (λ (r : List (Bar F) × ℕ). Held r.0 b) (same_values old b) (t, 0)
          (upsert_candle b t, one_if (old.closed || b.closed)) (λ same. (old, e, same))
          (λ x. (b, find_bar-upsert_candle b t, s)))
  ]

  heal_all-Held :
      (bs t : List (Bar F)) → DistinctKeys bs → All IsSolid bs → All (Held (heal_all bs t).0) bs
  unfolding heal_all
  heal_all-Held [] t d s = tt
  heal_all-Held (b ∷ bs) t d s =
      let (old, e, same) = heal_bar-Held b t s.0 in
      (
        (old, find_bar-heal_all (key_of b) bs (heal_bar b t).0 d.0 ∙ e, same),
        heal_all-Held bs (heal_bar b t).0 d.1 s.1,
      )

  heal_bar_again : (b : Bar F) (t : List (Bar F)) → Held t b → heal_bar b t ≡ (t, 0)
  unfolding heal_bar heal_found
  heal_bar_again b t (old, e, same) = rw (e, same) refl

  heal_all_again : (bs t : List (Bar F)) → All (Held t) bs → heal_all bs t ≡ (t, 0)
  unfolding heal_all
  heal_all_again [] t h = refl
  heal_all_again (b ∷ bs) t h = rw (heal_bar_again b t h.0, heal_all_again bs t h.1) refl

  -- A second pass on the same replies repairs nothing and changes nothing, where the replies have one
  -- row for a pair, an interval and a time, and no NaN.
  pub gap_heal-gap_heal :
      (src : Venue F) (recent : ℕ) (symbols : List Name) (is : List ℕ) (t : List (Bar F))
      → DistinctKeys (arrivals src recent symbols is)
      → All IsSolid (arrivals src recent symbols is)
      → gap_heal src recent symbols is (gap_heal src recent symbols is t).0
        ≡ ((gap_heal src recent symbols is t).0, 0)
  gap_heal-gap_heal src recent symbols is t d s =
      let bs = arrivals src recent symbols is in
      rw
        (
          gap_heal-heal_all src recent symbols is t,
          gap_heal-heal_all src recent symbols is (heal_all bs t).0,
        )
        (heal_all_again bs (heal_all bs t).0 (heal_all-Held bs t d s))
