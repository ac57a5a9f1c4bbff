-- ===== src/Executor/TakeProfit/Fires.antt =====
-- When the flatten starts, and when it ends.
use oracle_deepfield.Base.{
  Bool, true, false, not, ◌||◌, ◌≡◌, ◌⊎◌, inl, inr, refl, Option, none, some, arith, if_keeps,
  if_splits, ◌&&◌, length, length-append, suc, ◌+◌, ap, ◌∙◌, sym, subst,
}
use oracle_deepfield.Num.{Float, nought}
use oracle_deepfield.Num.Laws.{IsOrdered}
use oracle_deepfield.Num.Clamps.{fmax-le}
use oracle_deepfield.Executor.Rails.{tp_target}
use oracle_deepfield.Executor.TakeProfit.{
  Book, Target, Pass, or_zero, check_take_profit, flatten_pass, judge, watch, see_equity, settle,
  settle_read, trough_of, low_of, ratchets,
}

module _ {F : Type 0} ⦃fl : Float F⦄ where
  open fl use {lt, le}

  -- A target with the floor is not under the baseline, so an equity under the baseline is under it.
  under_target :
      IsOrdered F
      → (tp_pct baseline trough e : F) → lt e baseline ≡ true
      → lt e (tp_target tp_pct true baseline trough) ≡ true
  unfolding tp_target
  under_target o tp_pct baseline trough e h =
      o.lt-le_trans e baseline _ h (fmax-le o baseline _ (o.lt_numbers e baseline h).1)

  judge_red :
      IsOrdered F
      → (g : Target F) (p : Pass F) (baseline e : F) (b : Book F) → g.floor_baseline ≡ true
      → lt e baseline ≡ true
      → b.tp_flatten_active ≡ false
      → ((judge g p baseline e b).1.tp_flatten_active ≡ false)
        × ((judge g p baseline e b).1.cycles ≡ b.cycles)
  unfolding judge
  judge_red o g p baseline e b f h a =
      let t = under_target o g.tp_pct baseline (low_of (trough_of baseline b) e) e h in
      rw (f, t)
        (
          if_keeps {A = Book F} (λ v. v.tp_flatten_active ≡ false)
              (ratchets (trough_of baseline b) e) _ b a a,
          if_keeps {A = Book F} (λ v. v.cycles ≡ b.cycles) (ratchets (trough_of baseline b) e) _ b
              refl refl,
        )

  watch_red :
      IsOrdered F
      → (g : Target F) (p : Pass F) (b : Book F) (e : F) → g.floor_baseline ≡ true
      → le (or_zero b.tp_baseline) nought ≡ false
      → lt e (or_zero b.tp_baseline) ≡ true
      → b.tp_flatten_active ≡ false
      → ((watch g p (some e) b).1.tp_flatten_active ≡ false)
        × ((watch g p (some e) b).1.cycles ≡ b.cycles)
  unfolding watch
  watch_red o g p b e f n h a = rw n (judge_red o g p (or_zero b.tp_baseline) e b f h a)

  -- The book that saw an equity, with a new peak or as it was.
  seen_red :
      IsOrdered F
      → (g : Target F) (p : Pass F) (b : Book F) (e : F) → g.floor_baseline ≡ true
      → le (or_zero b.tp_baseline) nought ≡ false
      → lt e (or_zero b.tp_baseline) ≡ true
      → b.tp_flatten_active ≡ false
      → ((watch g p (some e) (see_equity (some e) b)).1.tp_flatten_active ≡ false)
        × ((watch g p (some e) (see_equity (some e) b)).1.cycles ≡ b.cycles)
  unfolding see_equity
  seen_red o g p b e f n h a =
      if_keeps {A = Book F}
        (λ v.
          ((watch g p (some e) v).1.tp_flatten_active ≡ false)
          × ((watch g p (some e) v).1.cycles ≡ b.cycles))
        (lt (or_zero b.peak_equity) e) _ b
        (watch_red o g p (record b { peak_equity = some e }) e f n h a)
        (watch_red o g p b e f n h a)

  -- With the floor at the baseline and no flatten active, a poll that reads an equity under a
  -- positive baseline starts no flatten and books no cycle.
  pub check_take_profit-red :
      IsOrdered F
      → (g : Target F) (p : Pass F) (b : Book F) (e : F) → g.floor_baseline ≡ true
      → p.equity ≡ some e
      → le (or_zero b.tp_baseline) nought ≡ false
      → lt e (or_zero b.tp_baseline) ≡ true
      → b.tp_flatten_active ≡ false
      → let next = (check_take_profit g p b).1 in
        (next.tp_flatten_active ≡ false) × (next.cycles ≡ b.cycles)
  unfolding check_take_profit
  check_take_profit-red o g p b e f q n h a =
      let P : Bool × Book F → Type 0 =
        λ v. (v.1.tp_flatten_active ≡ false) × (v.1.cycles ≡ b.cycles) in
      if_keeps P (not p.armed || not g.tp_enabled) _ _ (a, refl)
        (if_splits P b.tp_flatten_active _ _ (λ t. absurd (ground arith))
          (λ _. subst (λ v. P (watch g p v (see_equity v b))) (sym q) (seen_red o g p b e f n h a)))

  -- What a pass makes of a flatten that is active.
  pub data Owned (p : Pass F) (b next : Book F) : Type 0 where
    keeps :
        ((p.ran && p.complete) ≡ false) ⊎ (p.settled ≡ none)
        → next.tp_flatten_active ≡ true
        → next.cycles ≡ b.cycles
        → Owned p b next
    ends :
        (e : F)
        → p.ran ≡ true
        → p.complete ≡ true
        → p.settled ≡ some e
        → next.tp_flatten_active ≡ false
        → next.tp_baseline ≡ some e
        → length next.cycles ≡ suc (length b.cycles)
        → Owned p b next

  -- Seeing an equity changes no more than the peak.
  pub see_equity_keeps :
      (q : Option F) (b : Book F)
      → ((see_equity q b).tp_flatten_active ≡ b.tp_flatten_active)
        × (((see_equity q b).cycles ≡ b.cycles) × ((see_equity q b).tp_baseline ≡ b.tp_baseline))
  unfolding see_equity
  see_equity_keeps none b = (refl, (refl, refl))
  see_equity_keeps (some e) b = ground arith

  settle_read-Owned :
      (p : Pass F) (baseline : F) (b seen : Book F) (settled : Option F)
      → p.ran ≡ true
      → p.complete ≡ true
      → p.settled ≡ settled
      → seen.tp_flatten_active ≡ true
      → seen.cycles ≡ b.cycles
      → Owned p b (settle_read baseline settled seen).1
  unfolding settle
  settle_read-Owned p baseline b seen none r c s a k = keeps (inr s) a k
  settle_read-Owned p baseline b seen (some e) r c s a k = ends e r c s refl refl (
      length-append (see_equity (some e) seen).cycles _
      ∙ ap (λ l. length l + 1) ((see_equity_keeps (some e) seen).1.0 ∙ k)
      ∙ omega arith)

  flatten_pass-Owned :
      (p : Pass F) (baseline : F) (b seen : Book F)
      → seen.tp_flatten_active ≡ true
      → seen.cycles ≡ b.cycles
      → Owned p b (flatten_pass p baseline seen).1
  unfolding flatten_pass
  flatten_pass-Owned p baseline b seen a k =
      if_splits {A = Bool × Book F} (λ v. Owned p b v.1) (not p.ran) _ _
        (λ r. keeps (inl (ground arith)) a k)
        (λ r.
          if_splits {A = Bool × Book F} (λ v. Owned p b v.1) (not p.complete) _ _
            (λ c. keeps (inl (ground arith)) a k)
            (λ c.
              settle_read-Owned p baseline b seen p.settled (ground arith) (ground arith) refl a k))

  -- A flatten that started owns the book: until a pass ran, was complete and read an equity after
  -- it, it stays active and books no cycle; that pass ends it, books one cycle, and makes the
  -- equity it read the next baseline.
  pub check_take_profit-Owned :
      (g : Target F) (p : Pass F) (b : Book F)
      → p.armed ≡ true
      → g.tp_enabled ≡ true
      → b.tp_flatten_active ≡ true
      → Owned p b (check_take_profit g p b).1
  unfolding check_take_profit
  check_take_profit-Owned g p b r t a =
      let kept = see_equity_keeps p.equity b in
      simp (r, t, a)
        (flatten_pass-Owned p (or_zero b.tp_baseline) b (see_equity p.equity b) (kept.0 ∙ a)
          kept.1.0)
