-- ===== src/Candles/Series.antt =====
-- What an upsert and a flip do to the queries of deepfield/store.py: lookups by key, and the closed
-- series that the engine scores.
use oracle_deepfield.Base.{
  ℕ, ◌≡◌, refl, ap, true, false, some, List, [], ◌∷◌, arith, ==_iff, &&-left, &&-right,
  if◌then◌else◌, keep, Bool-cases, inl, inr,
}
use oracle_deepfield.Base.Names.{Name, name_eq→eq, name_eq_refl}
use oracle_deepfield.Candles.Table.{
  Bar, Key, same_key, key_of, upsert_candle, find_bar, flip_closed, is_closed_series, closed_series,
  load_weekly_daily_closed,
}

pub same_key_refl : (k : Key) → same_key k k ≡ true
same_key_refl k = ground (arith, name_eq_refl k.pair)

pub same_key→eq : (a b : Key) → same_key a b ≡ true → a ≡ b
same_key→eq a b h =
    let p = name_eq→eq a.pair b.pair (&&-left _ _ (&&-left _ _ h)) in
    let q = (==_iff a.interval b.interval).0 (&&-right _ _ (&&-left _ _ h)) in
    let r = (==_iff a.ts b.ts).0 (&&-right _ _ h) in
    λ i. record { pair = p i; interval = q i; ts = r i }

same_key_cong : (a b c : Key) → same_key a b ≡ true → same_key a c ≡ same_key b c
same_key_cong a b c h = ap (λ k. same_key k c) (same_key→eq a b h)

module _ {F : Type 0} where
  pub find_bar-upsert_candle :
      (b : Bar F) (t : List (Bar F)) → find_bar (key_of b) (upsert_candle b t) ≡ some b
  unfolding upsert_candle
  find_bar-upsert_candle b [] = ground (arith, same_key_refl (key_of b))
  find_bar-upsert_candle b (x ∷ xs) =
      ground (arith, same_key_refl (key_of b), find_bar-upsert_candle b xs)

  -- An upsert leaves every other key alone.
  pub find_bar-upsert_other :
      (k : Key) (b : Bar F) (t : List (Bar F))
      → same_key (key_of b) k ≡ false
      → find_bar k (upsert_candle b t) ≡ find_bar k t
  unfolding upsert_candle
  find_bar-upsert_other k b [] h = ground arith
  find_bar-upsert_other k b (x ∷ xs) h = elim (Bool-cases (same_key (key_of x) (key_of b))) [
    | inl e ↦ rw (e, h, same_key_cong (key_of x) (key_of b) k e, h) refl
    | inr e ↦ rw (e, find_bar-upsert_other k b xs h) refl
  ]

  -- No closed bar stands at the key.
  abbrev pub NoneClosed : Key → List (Bar F) → Type 0
  NoneClosed k t = (x : Bar F) → find_bar k t ≡ some x → x.closed ≡ false

  keep-upsert_candle :
      (pair : Name) (interval : ℕ) (b : Bar F) (t : List (Bar F))
      → b.closed ≡ false
      → NoneClosed (key_of b) t
      → keep (is_closed_series pair interval) (upsert_candle b t)
        ≡ keep (is_closed_series pair interval) t
  unfolding upsert_candle
  keep-upsert_candle pair interval b [] h n = ground (arith, h)
  keep-upsert_candle pair interval b (x ∷ xs) h n =
      elim (Bool-cases (same_key (key_of x) (key_of b))) [
        | inl e ↦
            let open_x : x.closed ≡ false = n x (rw e refl) in rw e (ground (arith, h, open_x))
        | inr e ↦ rw e (
            ap (λ r. if is_closed_series pair interval x then x ∷ r else r)
              (keep-upsert_candle pair interval b xs h (λ y f. n y (rw e f))))
      ]

  -- A forming bar does not reach the scoring: writing a bar that is not closed, at a key where no
  -- closed bar stands, leaves both closed series of every pair as they were.
  pub load_weekly_daily_closed-upsert_candle :
      (symbol : Name) (b : Bar F) (t : List (Bar F))
      → b.closed ≡ false
      → NoneClosed (key_of b) t
      → load_weekly_daily_closed symbol (upsert_candle b t) ≡ load_weekly_daily_closed symbol t
  unfolding load_weekly_daily_closed closed_series
  load_weekly_daily_closed-upsert_candle symbol b t h n =
      rw (keep-upsert_candle symbol 10080 b t h n, keep-upsert_candle symbol 1440 b t h n) refl

  -- A second flip of the same bar counts 0 and changes nothing.
  pub flip_closed-flip_closed :
      (k : Key) (t : List (Bar F)) → flip_closed k (flip_closed k t).1 ≡ (0, (flip_closed k t).1)
  unfolding flip_closed
  flip_closed-flip_closed k [] = refl
  flip_closed-flip_closed k (x ∷ xs) = ground (arith, flip_closed-flip_closed k xs)
