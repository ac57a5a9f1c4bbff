-- ===== src/Scoring/Regime.antt =====
-- `regime` and `monthly_closes` of deepfield/engine.py.
use oracle_deepfield.Base.{
  ℕ, zero, suc, ◌+◌, ◌%◌, ◌<◌, ◌≡◌, ◌≢◌, refl, Bool, true, false, not, ◌&&◌, ◌||◌, Option, none,
  some, List, [], ◌∷◌, arith, length, drop, if◌then◌else◌, leb, ◌∙◌, length-drop,
}
use oracle_deepfield.Num.{Float, nought, of_ℕ}
use oracle_deepfield.Scoring.Indicators.{calc_ema, calc_rsi}
use oracle_deepfield.Scoring.Signals.{Profile, at_end}
use oracle_deepfield.Scoring.Engine.{positive_at}

pub data Label : Type 0 where
  unknown bull bear recovery neutral : Label

pub record Regime (F : Type 0) : Type 0 where
  pub label : Label
  pub daily_rsi : Option F
  pub monthly_rsi : Option F
  pub danger : Bool

module _ {ℓ} {A : Type ℓ} where
  -- `xs[::4]`
  unfoldable pub every_fourth : List A → List A
  every_fourth [] = []
  every_fourth (a ∷ []) = a ∷ []
  every_fourth (a ∷ b ∷ []) = a ∷ []
  every_fourth (a ∷ b ∷ c ∷ []) = a ∷ []
  every_fourth (a ∷ b ∷ c ∷ d ∷ r) = a ∷ every_fourth r

  -- `monthly_closes`; `(len(xs) - 1) % 4` of an empty list is 3, which drops nothing
  unfoldable pub monthly_closes : List A → Bool → List A
  unfolding every_fourth
  monthly_closes wc end_anchored =
      if end_anchored then every_fourth (drop ((length wc + 3) % 4) wc) else every_fourth wc

  abbrev pub last_of : List A → Option A
  last_of [] = none
  last_of (x ∷ []) = some x
  last_of (x ∷ y ∷ r) = last_of (y ∷ r)

  last_of-cons :
      (x e : A) (r : List A) → last_of (x ∷ every_fourth (e ∷ r)) ≡ last_of (every_fourth (e ∷ r))
  unfolding every_fourth
  last_of-cons x e [] = refl
  last_of-cons x e (b ∷ []) = refl
  last_of-cons x e (b ∷ c ∷ []) = refl
  last_of-cons x e (b ∷ c ∷ d ∷ r) = refl

  -- One more than a multiple of four elements: the last one is sampled.
  last_of-every_fourth : (xs : List A) → length xs % 4 ≡ 1 → last_of (every_fourth xs) ≡ last_of xs
  unfolding every_fourth
  last_of-every_fourth [] h = absurd (omega arith)
  last_of-every_fourth (a ∷ []) h = refl
  last_of-every_fourth (a ∷ b ∷ []) h = absurd (omega arith)
  last_of-every_fourth (a ∷ b ∷ c ∷ []) h = absurd (omega arith)
  last_of-every_fourth (a ∷ b ∷ c ∷ d ∷ []) h = absurd (omega arith)
  last_of-every_fourth (a ∷ b ∷ c ∷ d ∷ e ∷ r) h =
      last_of-cons a e r ∙ last_of-every_fourth (e ∷ r) (omega arith)

  last_of-drop : (k : ℕ) (xs : List A) → k < length xs → last_of (drop k xs) ≡ last_of xs
  last_of-drop zero xs h = refl
  last_of-drop (suc k) [] h = absurd (omega arith)
  last_of-drop (suc k) (x ∷ []) h = absurd (omega arith)
  last_of-drop (suc k) (x ∷ y ∷ r) h = last_of-drop k (y ∷ r) (omega arith)

  -- The end-anchored sample ends with the latest weekly close, for every series that has one.
  pub monthly_closes_latest :
      (wc : List A) → 0 < length wc → last_of (monthly_closes wc true) ≡ last_of wc
  unfolding monthly_closes
  monthly_closes_latest wc h =
      let k = (length wc + 3) % 4 in
      last_of-every_fourth (drop k wc) (omega (arith, length-drop k wc))
      ∙ last_of-drop k wc (omega arith)

module _ {F : Type 0} ⦃fl : Float F⦄ where
  open fl use {sub, lt, le}

  -- The label of F9: a four-bar slope, and no NEUTRAL.
  unfoldable pub label_f9 : List F → List F → Label
  label_f9 wc ema =
      let above = lt (at_end 1 ema) (at_end 1 wc) in
      let rising = lt nought (sub (at_end 1 ema) (at_end 5 ema)) in
      if leb 204 (length wc) && lt nought (at_end 1 ema) && lt nought (at_end 5 ema)
      then (if above && rising then bull else if not above then bear else recovery)
      else unknown

  -- The label of v4.4.
  unfoldable pub label_v44 : List F → List F → Label
  label_v44 wc ema =
      let above = lt (at_end 1 ema) (at_end 1 wc) in
      let slope = sub (at_end 1 ema) (at_end 2 ema) in
      if leb 202 (length wc) && lt nought (at_end 1 ema) && lt nought (at_end 2 ema)
      then (if above && lt nought slope
          then bull
          else if not above || lt slope nought
          then bear
          else neutral)
      else unknown

  unfoldable pub monthly_rsi_of : List F → Profile → Option F
  unfolding monthly_closes
  monthly_rsi_of wc p =
      let monthly = monthly_closes wc p.f4 in
      if leb 60 (length wc) && leb 15 (length monthly)
      then positive_at 1 (calc_rsi monthly 14)
      else none

  -- DANGER_DRSI is 30.
  unfoldable pub is_danger : Option F → Bool
  is_danger none = false
  is_danger (some rsi) = lt rsi (of_ℕ 30)

  -- `regime`
  unfoldable pub regime : List F → List F → Profile → Regime F
  unfolding label_f9 label_v44 monthly_rsi_of is_danger
  regime wc dc p =
      let ema = calc_ema wc 200 in
      let drsi = positive_at 1 (calc_rsi dc 14) in
      record {
        label = if p.f9 then label_f9 wc ema else label_v44 wc ema;
        daily_rsi = drsi;
        monthly_rsi = monthly_rsi_of wc p;
        danger = is_danger drsi;
      }

  -- Under F9 there is no NEUTRAL; the regime is BULL only above the average, and BEAR exactly below
  -- or at it once it is known.
  pub regime_f9 :
      (wc dc : List F) (p : Profile)
      → p.f9 ≡ true
      → let r = regime wc dc p in
        let above = lt (at_end 1 (calc_ema wc 200)) (at_end 1 wc) in
        (r.label ≢ neutral)
        × (r.label ≡ bull → above ≡ true)
        × (r.label ≡ bear → above ≡ false)
        × (r.label ≢ unknown → above ≡ false → r.label ≡ bear)
  unfolding regime
  regime_f9 wc dc p h = ground arith
