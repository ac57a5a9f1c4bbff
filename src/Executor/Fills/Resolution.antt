-- ===== src/Executor/Fills/Resolution.antt =====
-- When a pending row is resolved, over one cycle after another.
use oracle_deepfield.Base.{
  ℕ, Bool, true, false, ◌≡◌, ◌⊎◌, inl, inr, refl, sym, ap, ◌∙◌, subst, Option, none, some, List, [],
  ◌∷◌, arith, if_splits, if_keeps, Bool-cases, any_of, if◌then◌else◌,
}
use oracle_deepfield.Base.Names.{Name}
use oracle_deepfield.Num.{Float, nought}
use oracle_deepfield.Executor.Ledger.{Row, open_, is_pending}
use oracle_deepfield.Executor.Venue.{Config, Reads}
use oracle_deepfield.Executor.Fills.{
  is_terminal, Report, Answers, settle_row, poll_report, poll_row, poll_txid,
}
use oracle_deepfield.Executor.Fills.Machine.{rest_stop_keeps}
use oracle_deepfield.Executor.Fills.Agreement.{Polled, stays, by_batch, by_cancel, poll_row-Polled}

module _ {F : Type 0} ⦃fl : Float F⦄ where
  open fl use {lt}

  -- One cycle for one row: only a pending row is polled.
  abbrev pub cycle : Config F → ℕ → Reads F → Answers F → Row F → Row F
  cycle cfg ttl r a row = if is_pending row.status then (poll_row cfg r ttl a row).0 else row

  unfoldable pub poll_run : Config F → ℕ → List (Reads F × Answers F) → Row F → Row F
  unfolding poll_row
  poll_run cfg ttl [] row = row
  poll_run cfg ttl ((r, a) ∷ more) row = poll_run cfg ttl more (cycle cfg ttl r a row)

  -- A batch that reports a terminal order.
  abbrev pub tells_terminal : Option (Report F) → Bool
  tells_terminal none = false
  tells_terminal (some o) = is_terminal o.status

  settle_row-resolved :
      (cfg : Config F) (r : Reads F) (o : Report F) (row : Row F)
      → is_pending (settle_row cfg r o row).0.status ≡ false
  unfolding settle_row
  settle_row-resolved cfg r o row = elim (Bool-cases (lt nought o.vol_exec)) [
    | inl v ↦ rw v (
        ap is_pending
          (rest_stop_keeps cfg r (record row { status = open_; volume = o.vol_exec })).0)
    | inr v ↦ rw v refl
  ]

  poll_report-terminal :
      (cfg : Config F) (r : Reads F) (ttl : ℕ) (a : Answers F) (row : Row F)
      (report : Option (Report F))
      → tells_terminal report ≡ true
      → is_pending (poll_report cfg r ttl a report row).0.status ≡ false
  unfolding poll_report
  poll_report-terminal cfg r ttl a row none t = absurd (ground arith)
  poll_report-terminal cfg r ttl a row (some o) t = rw t (settle_row-resolved cfg r o row)

  poll_txid-terminal :
      (cfg : Config F) (r : Reads F) (ttl : ℕ) (a : Answers F) (row : Row F) (given : Option Name)
      (g : Name)
      → given ≡ some g
      → tells_terminal a.batch ≡ true
      → is_pending (poll_txid cfg r ttl a given row).0.status ≡ false
  unfolding poll_txid
  poll_txid-terminal cfg r ttl a row none g e t = absurd (ground arith)
  poll_txid-terminal cfg r ttl a row (some given) g e t =
      poll_report-terminal cfg r ttl a row a.batch t

  Polled-resolved :
      (cfg : Config F) (r : Reads F) (a : Answers F) (row result : Row F)
      → Polled cfg r a row result
      → (result ≡ row) ⊎ (is_pending result.status ≡ false)
  Polled-resolved cfg r a row result (stays e) = inl e
  Polled-resolved cfg r a row result (by_batch o b t e) =
      inr (ap (λ v. is_pending v.status) e ∙ settle_row-resolved cfg r o row)
  Polled-resolved cfg r a row result (by_cancel o b t e) =
      inr (ap (λ v. is_pending v.status) e ∙ settle_row-resolved cfg r o row)

  poll_run_resolved :
      (cfg : Config F) (ttl : ℕ) (cycles : List (Reads F × Answers F)) (row : Row F)
      → is_pending row.status ≡ false
      → is_pending (poll_run cfg ttl cycles row).status ≡ false
  unfolding poll_run
  poll_run_resolved cfg ttl [] row p = p
  poll_run_resolved cfg ttl ((r, a) ∷ more) row p =
      poll_run_resolved cfg ttl more (cycle cfg ttl r a row) (rw p p)

  cycle_told :
      (cfg : Config F) (ttl : ℕ) (r : Reads F) (a : Answers F) (row : Row F) (given : Name)
      → row.txid ≡ some given
      → tells_terminal a.batch ≡ true
      → is_pending (cycle cfg ttl r a row).status ≡ false
  unfolding poll_row
  cycle_told cfg ttl r a row given g t =
      if_splits {A = Row F} (λ v. is_pending v.status ≡ false) (is_pending row.status) _ row
        (λ _. poll_txid-terminal cfg r ttl a row row.txid given g t) (λ p. p)

  cycle_other :
      (cfg : Config F) (ttl : ℕ) (r : Reads F) (a : Answers F) (row : Row F) (given : Name)
      → row.txid ≡ some given
      → (cycle cfg ttl r a row ≡ row) ⊎ (is_pending (cycle cfg ttl r a row).status ≡ false)
  cycle_other cfg ttl r a row given g =
      if_keeps {A = Row F} (λ v. (v ≡ row) ⊎ (is_pending v.status ≡ false)) (is_pending row.status)
        _ row (Polled-resolved cfg r a row _ (poll_row-Polled cfg r ttl a row given g)) (inl refl)

  -- A bid with its txid is resolved by the first cycle whose batched query tells that its order is
  -- terminal, whatever the other cycles answer: after a run of cycles with such a one in it, the
  -- row is no longer pending.
  pub poll_run-resolves :
      (cfg : Config F) (ttl : ℕ) (cycles : List (Reads F × Answers F)) (row : Row F) (given : Name)
      → row.txid ≡ some given
      → any_of (λ c. tells_terminal c.1.batch) cycles ≡ true
      → is_pending (poll_run cfg ttl cycles row).status ≡ false
  unfolding poll_run
  poll_run-resolves cfg ttl [] row given g h = absurd (ground arith)
  poll_run-resolves cfg ttl ((r, a) ∷ more) row given g h =
      elim (Bool-cases (tells_terminal a.batch)) [
        | inl t ↦ poll_run_resolved cfg ttl more _ (cycle_told cfg ttl r a row given g t)
        | inr t ↦ elim (cycle_other cfg ttl r a row given g) [
          | inl e ↦
              subst (λ v. is_pending (poll_run cfg ttl more v).status ≡ false) (sym e)
                (poll_run-resolves cfg ttl more row given g (ground (arith, t, h)))
          | inr p ↦ poll_run_resolved cfg ttl more _ p
        ]
      ]
