-- ===== src/Scoring/Divergence.antt =====
-- The pivots of deepfield/signals.py: each one is an accepted local minimum of its series, and they
-- come in order, at least the spacing apart.
use oracle_deepfield.Base.{
  ℕ, suc, ◌+◌, ◌≤◌, ◌<◌, ◌≡◌, refl, Bool, true, ◌&&◌, Option, none, some, List, [], ◌∷◌, arith,
  get_elem?, if_splits, All,
}
use oracle_deepfield.Num.{Float}
use oracle_deepfield.Scoring.Signals.{spaced, pivots_from, price_accepts, pivots}

module _ {F : Type 0} where
  -- The pivot p of a series whose first bar has the number i - 1: some three bars in a row are
  -- accepted, and p is the middle one with its number.
  abbrev pub IsPivot : (F → F → F → Bool) → ℕ → List F → ℕ × F → Type 0
  IsPivot accept i xs p =
      (k : ℕ) × (a : F) × (b : F) × (p.0 ≡ i + k)
      × (get_elem? xs k ≡ some a)
      × (get_elem? xs (suc k) ≡ some p.1)
      × (get_elem? xs (suc (suc k)) ≡ some b)
      × (accept a p.1 b ≡ true)

  -- Each number is at least s beyond the one before, and beyond `last`.
  abbrev pub SpacedBy : ℕ → Option ℕ → List (ℕ × F) → Type 0
  SpacedBy s last [] = Unit {0}
  SpacedBy s none (p ∷ ps) = SpacedBy s (some p.0) ps
  SpacedBy s (some j) (p ∷ ps) = (j + s ≤ p.0) × SpacedBy s (some p.0) ps

  module _ (accept : F → F → F → Bool) where
    IsPivot-tail :
        (i : ℕ) (a : F) (xs : List F) (ps : List (ℕ × F))
        → All (IsPivot accept (i + 1) xs) ps
        → All (IsPivot accept i (a ∷ xs)) ps
    IsPivot-tail i a xs [] h = tt
    IsPivot-tail i a xs (p ∷ ps) ((k, x, y, e, ex, ev, ey, ok), rest) =
        ((suc k, x, y, omega arith, ex, ev, ey, ok), IsPivot-tail i a xs ps rest)

module _ {F : Type 0} ⦃fl : Float F⦄ where
  open fl use {lt}

  module _ (accept : F → F → F → Bool) where
    pivots_from-IsPivot :
        (spacing last : Option ℕ) (i : ℕ) (xs : List F)
        → All (IsPivot accept i xs) (pivots_from accept spacing last i xs)
    unfolding pivots_from
    pivots_from-IsPivot spacing last i (a ∷ v ∷ b ∷ r) =
        let later = λ (l : Option ℕ).
          IsPivot-tail accept i a (v ∷ b ∷ r) (pivots_from accept spacing l (i + 1) (v ∷ b ∷ r))
            (pivots_from-IsPivot spacing l (i + 1) (v ∷ b ∷ r)) in
        if_splits (All (IsPivot accept i (a ∷ v ∷ b ∷ r))) (accept a v b && spaced spacing last i)
          ((i, v) ∷ pivots_from accept spacing (some i) (i + 1) (v ∷ b ∷ r))
          (pivots_from accept spacing last (i + 1) (v ∷ b ∷ r))
          (λ taken. ((0, a, b, omega arith, refl, refl, refl, ground arith), later (some i)))
          (λ _. later last)
    pivots_from-IsPivot spacing last i [] = tt
    pivots_from-IsPivot spacing last i (a ∷ []) = tt
    pivots_from-IsPivot spacing last i (a ∷ v ∷ []) = tt

    SpacedBy-first :
        (s i : ℕ) (last : Option ℕ) (p : ℕ × F) (ps : List (ℕ × F))
        → spaced (some s) last i ≡ true
        → p.0 ≡ i
        → ((j : ℕ) → last ≡ some j → j < i)
        → SpacedBy s (some p.0) ps
        → SpacedBy s last (p ∷ ps)
    unfolding spaced
    SpacedBy-first s i none p ps ok e below rest = rest
    SpacedBy-first s i (some j) p ps ok e below rest = (ground (arith, below j refl), rest)

    pivots_from-SpacedBy :
        (s : ℕ) (last : Option ℕ) (i : ℕ) (xs : List F)
        → ((j : ℕ) → last ≡ some j → j < i)
        → SpacedBy s last (pivots_from accept (some s) last i xs)
    unfolding pivots_from
    pivots_from-SpacedBy s last i (a ∷ v ∷ b ∷ r) below =
        if_splits (SpacedBy s last) (accept a v b && spaced (some s) last i)
          ((i, v) ∷ pivots_from accept (some s) (some i) (i + 1) (v ∷ b ∷ r))
          (pivots_from accept (some s) last (i + 1) (v ∷ b ∷ r))
          (λ taken.
            SpacedBy-first s i last (i, v)
              (pivots_from accept (some s) (some i) (i + 1) (v ∷ b ∷ r)) (ground arith) refl below
              (pivots_from-SpacedBy s (some i) (i + 1) (v ∷ b ∷ r) (λ j e. ground arith)))
          (λ _. pivots_from-SpacedBy s last (i + 1) (v ∷ b ∷ r) (λ j e. omega (arith, below j e)))
    pivots_from-SpacedBy s last i [] below = tt
    pivots_from-SpacedBy s last i (a ∷ []) below = tt
    pivots_from-SpacedBy s last i (a ∷ v ∷ []) below = tt

  -- The price pivots of F2 are three-bar local minima of the series at a price above 0, deep enough
  -- against both neighbours, and any two in a row are at least the spacing apart.
  pub pivots_sound :
      (vals : List F) (depth : F) (s : ℕ)
      → All (IsPivot (price_accepts (some depth)) 1 vals) (pivots vals (some depth) (some s))
        × SpacedBy s none (pivots vals (some depth) (some s))
  unfolding pivots
  pivots_sound vals depth s = (
    pivots_from-IsPivot (price_accepts (some depth)) (some s) none 1 vals,
    pivots_from-SpacedBy (price_accepts (some depth)) s none 1 vals (λ j e. cc),
  )
