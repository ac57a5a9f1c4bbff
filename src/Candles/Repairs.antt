-- ===== src/Candles/Repairs.antt =====
-- What a pass of `gap_heal` of deepfield/reconciler.py may do to the closed bars that stand in the
-- table, against the repairs that it counts.
use oracle_deepfield.Base.{
  ℕ, ◌+◌, ◌≡◌, refl, sym, ap, ◌∙◌, Bool, true, false, ◌||◌, Option, none, some, List, [], ◌∷◌,
  arith, if_keeps, Bool-cases, inl, inr, take_last, any_of, length, length-append, ◌++◌, ◌≤◌, ◌⊎◌,
  subst,
}
use oracle_deepfield.Base.Names.{Name}
use oracle_deepfield.Num.{Float}
use oracle_deepfield.Candles.Table.{Bar, Key, same_key, key_of, upsert_candle, find_bar}
use oracle_deepfield.Candles.Heal.{
  RestRow, Venue, rest_name, bar_of, same_values, one_if, heal_found, heal_bar, heal_rows,
  heal_intervals, gap_heal,
}
use oracle_deepfield.Candles.Series.{same_key→eq, same_key_refl, find_bar-upsert_other}

any_of-append :
    (k : Key) (ks js : List Key)
    → any_of (same_key k) (ks ++ js) ≡ (any_of (same_key k) ks || any_of (same_key k) js)
any_of-append k [] js = refl
any_of-append k (x ∷ ks) js = ground (arith, any_of-append k ks js)

module _ {F : Type 0} where
  abbrev pub holds_closed : Option (Bar F) → Bool
  holds_closed none = false
  holds_closed (some x) = x.closed

  -- A key is one of `ks`, or no closed bar stood at it, or what stood there stands there still.
  abbrev pub Keeps : List Key → List (Bar F) → List (Bar F) → Key → Type 0
  Keeps ks t t' k =
      (any_of (same_key k) ks ≡ true)
      ⊎ ((holds_closed (find_bar k t) ≡ false) ⊎ (find_bar k t' ≡ find_bar k t))

  -- From t to t' with n repairs: at most n keys lose the closed bar that stood there.
  abbrev pub IsLoud : List (Bar F) → List (Bar F) × ℕ → Type 0
  IsLoud t r = (ks : List Key) × ((length ks ≤ r.1) × ((k : Key) → Keeps ks t r.0 k))

  Keeps-trans :
      (ks js : List Key) (t u v : List (Bar F)) (k : Key)
      → Keeps ks t u k
      → Keeps js u v k
      → Keeps (ks ++ js) t v k
  Keeps-trans ks js t u v k (inl e) g = inl (ground (arith, any_of-append k ks js))
  Keeps-trans ks js t u v k (inr (inl e)) g = inr (inl e)
  Keeps-trans ks js t u v k (inr (inr e)) (inl h) = inl (ground (arith, any_of-append k ks js))
  Keeps-trans ks js t u v k (inr (inr e)) (inr (inl h)) = inr (inl (ap holds_closed (sym e) ∙ h))
  Keeps-trans ks js t u v k (inr (inr e)) (inr (inr h)) = inr (inr (h ∙ e))

  IsLoud-trans :
      (t : List (Bar F)) (r s : List (Bar F) × ℕ)
      → IsLoud t r
      → IsLoud r.0 s
      → IsLoud t (s.0, r.1 + s.1)
  IsLoud-trans t r s (ks, (a, f)) (js, (b, g)) = (
    ks ++ js,
    (omega (arith, length-append ks js), λ k. Keeps-trans ks js t r.0 s.0 k (f k) (g k)),
  )

  nothing_lost : (t : List (Bar F)) → IsLoud t (t, 0)
  nothing_lost t = ([], (omega arith, λ k. inr (inr refl)))

  -- A write, where its key is counted or held no closed bar.
  upsert_candle-Keeps :
      (new : Bar F) (ks : List Key) (t : List (Bar F)) (k : Key)
      → (any_of (same_key (key_of new)) ks ≡ true)
        ⊎ (holds_closed (find_bar (key_of new) t) ≡ false)
      → Keeps ks t (upsert_candle new t) k
  upsert_candle-Keeps new ks t k h = elim (Bool-cases (same_key (key_of new) k)) [
    | inl same ↦
        let q = same_key→eq (key_of new) k same in
        elim h [
          | inl e ↦ inl (subst (λ j. any_of (same_key j) ks ≡ true) q e)
          | inr e ↦ inr (inl (subst (λ j. holds_closed (find_bar j t) ≡ false) q e))
        ]
    | inr other ↦ inr (inr (find_bar-upsert_other k new t other))
  ]

module _ {F : Type 0} ⦃fl : Float F⦄ where
  rewritten-IsLoud :
      (new o : Bar F) (t : List (Bar F)) (c : Bool)
      → find_bar (key_of new) t ≡ some o
      → o.closed ≡ c
      → IsLoud t (upsert_candle new t, one_if (c || new.closed))
  rewritten-IsLoud new o t true e c = (
    key_of new ∷ [],
    (
      omega arith,
      λ k.
          upsert_candle-Keeps new (key_of new ∷ []) t k
            (inl (ground (arith, same_key_refl (key_of new)))),
    ),
  )
  rewritten-IsLoud new o t false e c =
      ([], (omega arith, λ k. upsert_candle-Keeps new [] t k (inr (ap holds_closed e ∙ c))))

  heal_found-IsLoud :
      (new : Bar F) (o : Option (Bar F)) (t : List (Bar F))
      → find_bar (key_of new) t ≡ o
      → IsLoud t (heal_found new o t)
  unfolding heal_found
  heal_found-IsLoud new none t e =
      ([], (omega arith, λ k. upsert_candle-Keeps new [] t k (inr (ap holds_closed e))))
  heal_found-IsLoud new (some o) t e =
      if_keeps (IsLoud t) (same_values o new) (t, 0)
        (upsert_candle new t, one_if (o.closed || new.closed)) (nothing_lost t)
        (rewritten-IsLoud new o t o.closed e refl)

  heal_bar-IsLoud : (new : Bar F) (t : List (Bar F)) → IsLoud t (heal_bar new t)
  unfolding heal_bar
  heal_bar-IsLoud new t = heal_found-IsLoud new (find_bar (key_of new) t) t refl

  heal_rows-IsLoud :
      (ws : Name) (interval now : ℕ) (rs : List (RestRow F)) (t : List (Bar F))
      → IsLoud t (heal_rows ws interval now rs t)
  unfolding heal_rows
  heal_rows-IsLoud ws interval now [] t = nothing_lost t
  heal_rows-IsLoud ws interval now (r ∷ rs) t =
      let s = heal_bar (bar_of ws interval now r) t in
      IsLoud-trans t s (heal_rows ws interval now rs s.0)
        (heal_bar-IsLoud (bar_of ws interval now r) t) (heal_rows-IsLoud ws interval now rs s.0)

  heal_intervals-IsLoud :
      (src : Venue F) (recent : ℕ) (ws : Name) (is : List ℕ) (t : List (Bar F))
      → IsLoud t (heal_intervals src recent ws is t)
  unfolding heal_intervals
  heal_intervals-IsLoud src recent ws [] t = nothing_lost t
  heal_intervals-IsLoud src recent ws (i ∷ is) t =
      let rows = take_last recent (src.fetch_ohlc (rest_name src ws) i) in
      let s = heal_rows ws i (src.now ws i) rows t in
      IsLoud-trans t s (heal_intervals src recent ws is s.0)
        (heal_rows-IsLoud ws i (src.now ws i) rows t) (heal_intervals-IsLoud src recent ws is s.0)

  -- No closed bar is changed silently: a pass changes or removes the closed bar of no more keys than
  -- the repairs it counts, and so of none where it counts none.
  pub gap_heal-IsLoud :
      (src : Venue F) (recent : ℕ) (symbols : List Name) (intervals : List ℕ) (t : List (Bar F))
      → IsLoud t (gap_heal src recent symbols intervals t)
  unfolding gap_heal
  gap_heal-IsLoud src recent [] intervals t = nothing_lost t
  gap_heal-IsLoud src recent (ws ∷ symbols) intervals t =
      let s = heal_intervals src recent ws intervals t in
      IsLoud-trans t s (gap_heal src recent symbols intervals s.0)
        (heal_intervals-IsLoud src recent ws intervals t)
        (gap_heal-IsLoud src recent symbols intervals s.0)
