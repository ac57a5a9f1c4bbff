-- ===== src/Defense/Escalation.antt =====
-- The alert state machine of deepfield/defense.py over a run of readings: one transition event for
-- each change of the known tier, and no event for what did not change.
use oracle_deepfield.Base.{
  ℕ, ◌≡◌, ◌≢◌, refl, ap, true, false, Option, none, some, List, [], ◌∷◌, ◌++◌, arith,
}
use oracle_deepfield.Num.{Float, nought}
use oracle_deepfield.Num.Laws.{IsOrdered}
use oracle_deepfield.Defense.Buffers.{
  Tier, nominal, caution, critical, unknown, Buffers, Memo, Event, transition, recritical, recalled,
  recritical_decay_pct, decayed, tracked, hold, observe, step, or_unknown,
}

-- The tier that was last known: a missing one and UNKNOWN are the same.
abbrev pub known : Option Tier → Option Tier
known none = none
known (some unknown) = none
known (some nominal) = some nominal
known (some caution) = some caution
known (some critical) = some critical

known-or_unknown : (t : Option Tier) → known (some (or_unknown t)) ≡ known t
known-or_unknown none = refl
known-or_unknown (some t) = refl

module _ {F : Type 0} where
  -- A run of events that leads from the known tier t to the known tier u: every transition starts
  -- at the tier where the run stands and leads to another one, and a decay page comes in CRITICAL.
  abbrev pub Linked : Option Tier → List (Event F) → Option Tier → Type 0
  Linked t [] u = u ≡ t
  Linked t (transition from to b ∷ es) u =
      (known from ≡ t) × (known (some to) ≢ t) × Linked (known (some to)) es u
  Linked t (recritical b ∷ es) u = (t ≡ some critical) × Linked t es u

  pub Linked-append :
      (t u v : Option Tier) (es fs : List (Event F))
      → Linked t es u
      → Linked u fs v
      → Linked t (es ++ fs) v
  Linked-append t u v [] fs h k = rw h at k
  Linked-append t u v (transition from to b ∷ es) fs h k =
      (h.0, h.1, Linked-append (known (some to)) u v es fs h.2 k)
  Linked-append t u v (recritical b ∷ es) fs h k = (h.0, Linked-append t u v es fs h.1 k)

-- A reading: what `compute` gave, its tier, and when.
pub record Reading (F : Type 0) : Type 0 where
  pub computed : Option (Buffers F)
  pub tier : Tier
  pub now : ℕ

module _ {F : Type 0} ⦃fl : Float F⦄ where
  open fl use {sub, le, lt}

  -- The caller's loop: the state persists, the events add up.
  unfoldable pub watch : Option (Memo F) → List (Reading F) → Option (Memo F) × List (Event F)
  unfolding step
  watch prev [] = (prev, [])
  watch prev (r ∷ rs) =
      let (m, es) = step prev r.computed r.tier r.now in
      let (last, fs) = watch (some m) rs in (last, es ++ fs)

  abbrev pub known_tier : Option (Memo F) → Option Tier
  known_tier prev = known (recalled prev).tier

  hold-Linked :
      (m : Memo F) (b : Option F) (t : Tier) (now : ℕ)
      → m.tier ≡ some t
      → Linked (known m.tier) (hold m b t now).1 (known (hold m b t now).0.tier)
  unfolding hold
  hold-Linked m none t now e = rw e refl
  hold-Linked m (some b) nominal now e = rw e refl
  hold-Linked m (some b) caution now e = rw e refl
  hold-Linked m (some b) unknown now e = rw e refl
  hold-Linked m (some b) critical now e = rw e (ground arith)

  observe-Linked :
      (m : Memo F) (b : Option F) (t : Tier) (now : ℕ)
      → t ≢ unknown
      → Linked (known m.tier) (observe m b t now).1 (known (observe m b t now).0.tier)
  unfolding observe
  observe-Linked m b t now ne = ground (arith, hold-Linked m b t now)

  step-Linked :
      (prev : Option (Memo F)) (c : Option (Buffers F)) (t : Tier) (now : ℕ)
      → Linked (known_tier prev) (step prev c t now).1 (known (step prev c t now).0.tier)
  unfolding step
  step-Linked prev c unknown now = ground arith
  step-Linked prev c nominal now = observe-Linked (recalled prev) (tracked c) nominal now (λ e. cc)
  step-Linked prev c caution now = observe-Linked (recalled prev) (tracked c) caution now (λ e. cc)
  step-Linked prev c critical now =
      observe-Linked (recalled prev) (tracked c) critical now (λ e. cc)

  watch-events :
      (prev : Option (Memo F)) (rs : List (Reading F))
      → Linked (known_tier prev) (watch prev rs).1 (known_tier (watch prev rs).0)
  unfolding watch
  watch-events prev [] = refl
  watch-events prev (r ∷ rs) =
      let (m, es) = step prev r.computed r.tier r.now in
      Linked-append (known_tier prev) (known m.tier) _ es (watch (some m) rs).1
        (step-Linked prev r.computed r.tier r.now) (watch-events (some m) rs)

  -- One more reading of UNKNOWN after a run: no further event, and the same known tier, time of its
  -- change and last paged buffer.
  abbrev pub IsQuiet : Option (Memo F) → List (Reading F) → Option (Buffers F) → ℕ → Type 0
  IsQuiet prev rs c now =
      let (before, es) = watch prev rs in
      let (after, fs) =
        watch prev (rs ++ record { computed = c; tier = unknown; now = now } ∷ []) in
      (fs ≡ es)
      × ((known_tier after ≡ known_tier before)
          × (((recalled after).since ≡ (recalled before).since)
              × ((recalled after).alert_buffer ≡ (recalled before).alert_buffer)))

  watch-IsQuiet :
      (prev : Option (Memo F)) (rs : List (Reading F)) (c : Option (Buffers F)) (now : ℕ)
      → IsQuiet prev rs c now
  unfolding watch step
  watch-IsQuiet none [] c now = (refl, (refl, (refl, refl)))
  watch-IsQuiet (some m) [] c now = (refl, (known-or_unknown m.tier, (refl, refl)))
  watch-IsQuiet prev (x ∷ rs) c now =
      let (m, es) = step prev x.computed x.tier x.now in
      let ih = watch-IsQuiet (some m) rs c now in (ap (λ fs. es ++ fs) ih.0, ih.1)

  -- Over any run of readings the events form a chain from the known tier before to the known tier
  -- after: each transition leaves the tier the chain stands at for another one, and further pages
  -- come only while the chain stands at CRITICAL. A reading of UNKNOWN after any run adds no event
  -- and changes neither the known tier nor the time and the buffer remembered with it.
  pub watch-Linked :
      (prev : Option (Memo F)) (rs : List (Reading F)) (c : Option (Buffers F)) (now : ℕ)
      → Linked (known_tier prev) (watch prev rs).1 (known_tier (watch prev rs).0)
        × IsQuiet prev rs c now
  watch-Linked prev rs c now = (watch-events prev rs, watch-IsQuiet prev rs c now)

  module _ (o : IsOrdered F) (decay_pos : lt nought recritical_decay_pct ≡ true) where
    not_decayed : (b : F) → decayed (some b) b ≡ false
    unfolding decayed
    not_decayed b = o.sub_self b recritical_decay_pct decay_pos

    hold_again :
        (m : Memo F) (b : Option F) (t : Tier) (now later : ℕ)
        → m.tier ≡ some t
        → t ≢ unknown
        → observe (hold m b t now).0 b t later ≡ ((hold m b t now).0, [])
    unfolding observe hold
    hold_again m none t now later e ne = ground arith
    hold_again m (some b) t now later e ne = ground (arith, not_decayed b)

    observe_again :
        (m : Memo F) (b : Option F) (t : Tier) (now later : ℕ)
        → t ≢ unknown
        → observe (observe m b t now).0 b t later ≡ ((observe m b t now).0, [])
    unfolding observe hold
    observe_again m none t now later ne = ground (arith, hold_again m none t now later)
    observe_again m (some b) t now later ne =
        ground (arith, not_decayed b, hold_again m (some b) t now later)

    -- A reading that repeats raises no second alert: after a step, the same buffers and tier at any
    -- later time emit nothing and leave the state as it is.
    pub step_again :
        (prev : Option (Memo F)) (c : Option (Buffers F)) (t : Tier) (now later : ℕ)
        → step (some (step prev c t now).0) c t later ≡ ((step prev c t now).0, [])
    unfolding step
    step_again prev c unknown now later = refl
    step_again prev c nominal now later =
        observe_again (recalled prev) (tracked c) nominal now later (λ e. cc)
    step_again prev c caution now later =
        observe_again (recalled prev) (tracked c) caution now later (λ e. cc)
    step_again prev c critical now later =
        observe_again (recalled prev) (tracked c) critical now later (λ e. cc)
