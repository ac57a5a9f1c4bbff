-- ===== src/Executor/Fills/Refunds.antt =====
-- What a pass over the table refunds.
use oracle_deepfield.Base.{
  ℕ, Bool, true, false, ◌≡◌, inl, inr, refl, ap, ap₂, ltb, ◌-◌, ◌∙◌, Option, none, some, List, [],
  ◌∷◌, ◌++◌, ◌||◌, arith, if_keeps, Bool-cases, if◌then◌else◌,
}
use oracle_deepfield.Base.Names.{Name}
use oracle_deepfield.Num.{Float, nought}
use oracle_deepfield.Executor.Ledger.{Row, Status, pending, open_, canceled, Mode, notional_of}
use oracle_deepfield.Executor.Venue.{Config, Reads}
use oracle_deepfield.Executor.Fills.{
  is_terminal, Report, Answers, Effect, rest_stop, settle_row, after_cancel, poll_report, poll_row,
  poll_txid, entry_ttl_expired, poll_rows, is_mine, poll_found, retire, resolve_by,
  resolve_ambiguous_entry, userref_resolve_secs, Lookup, found, absent, unknown, refunds, cancels,
  protects, next_rung,
}
use oracle_deepfield.Executor.Fills.Machine.{rest_stop_keeps}

abbrev pub is_canceled : Status → Bool
is_canceled canceled = true
is_canceled _ = false

module _ {F : Type 0} ⦃fl : Float F⦄ where
  open fl use {lt}

  -- What the effects of a poll refund, in order.
  abbrev pub refunded : List (Effect F) → List F
  refunded [] = []
  refunded (refunds n ∷ es) = n ∷ refunded es
  refunded (cancels ∷ es) = refunded es
  refunded (protects q ∷ es) = refunded es
  refunded (next_rung ∷ es) = refunded es

  refunded-append : (xs ys : List (Effect F)) → refunded (xs ++ ys) ≡ refunded xs ++ refunded ys
  refunded-append [] ys = refl
  refunded-append (refunds n ∷ xs) ys = ap (λ l. n ∷ l) (refunded-append xs ys)
  refunded-append (cancels ∷ xs) ys = refunded-append xs ys
  refunded-append (protects q ∷ xs) ys = refunded-append xs ys
  refunded-append (next_rung ∷ xs) ys = refunded-append xs ys

  -- The notional of a row whose bid died in this poll.
  abbrev pub dead_notional : Row F → Row F → List F
  dead_notional row polled = if is_canceled polled.status then notional_of row ∷ [] else []

  abbrev pub dead_notionals : Config F → Reads F → ℕ → (Row F → Answers F) → List (Row F) → List F
  dead_notionals cfg r ttl answers [] = []
  dead_notionals cfg r ttl answers (row ∷ rows) =
      (if is_mine r.mode row
        then dead_notional row (poll_row cfg r ttl (answers row) row).0
        else [])
      ++ dead_notionals cfg r ttl answers rows

  -- The refunds of a poll of `row`, seen as `next` since its txid was found.
  abbrev IsRefunded : Row F → Row F × List (Effect F) → Type 0
  IsRefunded row v = refunded v.1 ≡ dead_notional row v.0

  rest_stop_unrefunded :
      (cfg : Config F) (r : Reads F) (row : Row F) → refunded (rest_stop cfg r row).1 ≡ []
  unfolding rest_stop
  rest_stop_unrefunded cfg r row = ground arith

  settle_row-IsRefunded :
      (cfg : Config F) (r : Reads F) (o : Report F) (row next : Row F)
      → notional_of next ≡ notional_of row
      → IsRefunded row (settle_row cfg r o next)
  unfolding settle_row
  settle_row-IsRefunded cfg r o row next n = elim (Bool-cases (lt nought o.vol_exec)) [
    | inl v ↦
        let bought = record next { status = open_; volume = o.vol_exec } in
        rw (v, (rest_stop_keeps cfg r bought).0)
          (refunded-append (rest_stop cfg r bought).1 (next_rung ∷ [])
            ∙ ap (λ l. l ++ []) (rest_stop_unrefunded cfg r bought))
    | inr v ↦ rw v (ap (λ m. m ∷ []) n)
  ]

  after_cancel-IsRefunded :
      (cfg : Config F) (r : Reads F) (row next : Row F) (acked : Bool) (settled : Option (Report F))
      → next.status ≡ pending
      → notional_of next ≡ notional_of row
      → IsRefunded row (after_cancel cfg r acked settled next)
  unfolding after_cancel
  after_cancel-IsRefunded cfg r row next false settled p n = rw p refl
  after_cancel-IsRefunded cfg r row next true none p n = rw p refl
  after_cancel-IsRefunded cfg r row next true (some o) p n =
      if_keeps (IsRefunded row) (is_terminal o.status) _ _
        (settle_row-IsRefunded cfg r o row next n) (rw p refl)

  poll_report-IsRefunded :
      (cfg : Config F) (r : Reads F) (ttl : ℕ) (a : Answers F) (row next : Row F)
      (report : Option (Report F))
      → next.status ≡ pending
      → notional_of next ≡ notional_of row
      → IsRefunded row (poll_report cfg r ttl a report next)
  unfolding poll_report
  poll_report-IsRefunded cfg r ttl a row next none p n = rw p refl
  poll_report-IsRefunded cfg r ttl a row next (some o) p n =
      if_keeps (IsRefunded row) (is_terminal o.status) _ _
        (settle_row-IsRefunded cfg r o row next n)
        (if_keeps (IsRefunded row) (lt nought o.vol_exec || entry_ttl_expired ttl r.now next.ts) _
          (next, []) (after_cancel-IsRefunded cfg r row next a.cancel_acked a.settled p n)
          (rw p refl))

  poll_found-IsRefunded :
      (cfg : Config F) (r : Reads F) (ttl : ℕ) (a : Answers F) (row next : Row F)
      (given : Option Name)
      → next.status ≡ pending
      → notional_of next ≡ notional_of row
      → IsRefunded row (poll_found cfg r ttl a given next)
  unfolding poll_found
  poll_found-IsRefunded cfg r ttl a row next none p n = rw p refl
  poll_found-IsRefunded cfg r ttl a row next (some given) p n =
      poll_report-IsRefunded cfg r ttl a row next a.adopted p n

  -- A row whose order is not found has no refund, and is not canceled.
  unfound-IsRefunded :
      (cfg : Config F) (r : Reads F) (ttl : ℕ) (a : Answers F) (row next : Row F)
      (given : Option Name)
      → given ≡ none
      → is_canceled next.status ≡ false
      → IsRefunded row (poll_found cfg r ttl a given next)
  unfolding poll_found
  unfound-IsRefunded cfg r ttl a row next none e p = rw p refl
  unfound-IsRefunded cfg r ttl a row next (some given) e p = absurd (ground arith)

  retire-IsRefunded :
      (cfg : Config F) (r : Reads F) (ttl : ℕ) (a : Answers F) (why : Name) (row : Row F)
      → row.status ≡ pending
      → row.txid ≡ none
      → let next = retire r.now why row in IsRefunded row (poll_found cfg r ttl a next.txid next)
  retire-IsRefunded cfg r ttl a why row p t =
      let old = ltb userref_resolve_secs (r.now - row.ts) in
      unfound-IsRefunded cfg r ttl a row (retire r.now why row) _
        (if_keeps {A = Row F} (λ v. v.txid ≡ none) old _ row t t)
        (if_keeps {A = Row F} (λ v. is_canceled v.status ≡ false) old _ row refl (ap is_canceled p))

  resolve_by-IsRefunded :
      (cfg : Config F) (r : Reads F) (ttl : ℕ) (a : Answers F) (row : Row F) (userref : Option ℕ)
      (lookup : Lookup)
      → row.status ≡ pending
      → row.txid ≡ none
      → let next = resolve_by r.now userref lookup row in
        IsRefunded row (poll_found cfg r ttl a next.txid next)
  unfolding resolve_by
  resolve_by-IsRefunded cfg r ttl a row none lookup p t = retire-IsRefunded cfg r ttl a _ row p t
  resolve_by-IsRefunded cfg r ttl a row (some n) (found given) p t =
      poll_found-IsRefunded cfg r ttl a row (record row { txid = some given }) (some given) p refl
  resolve_by-IsRefunded cfg r ttl a row (some n) unknown p t =
      poll_found-IsRefunded cfg r ttl a row row row.txid p refl
  resolve_by-IsRefunded cfg r ttl a row (some n) absent p t =
      retire-IsRefunded cfg r ttl a _ row p t

  poll_txid-IsRefunded :
      (cfg : Config F) (r : Reads F) (ttl : ℕ) (a : Answers F) (row : Row F) (given : Option Name)
      → row.status ≡ pending
      → row.txid ≡ given
      → IsRefunded row (poll_txid cfg r ttl a given row)
  unfolding poll_txid resolve_ambiguous_entry
  poll_txid-IsRefunded cfg r ttl a row none p t =
      resolve_by-IsRefunded cfg r ttl a row row.userref a.lookup p t
  poll_txid-IsRefunded cfg r ttl a row (some given) p t =
      poll_report-IsRefunded cfg r ttl a row row a.batch p refl

  poll_row-IsRefunded :
      (cfg : Config F) (r : Reads F) (ttl : ℕ) (a : Answers F) (row : Row F)
      → row.status ≡ pending
      → IsRefunded row (poll_row cfg r ttl a row)
  unfolding poll_row
  poll_row-IsRefunded cfg r ttl a row p = poll_txid-IsRefunded cfg r ttl a row row.txid p refl

  is_mine-pending : (m : Mode) (row : Row F) → is_mine m row ≡ true → row.status ≡ pending
  is_mine-pending m row h = ground arith

  -- A pass over the table refunds exactly the notionals of the rows that it cancels, each once and
  -- in the table's order: nothing of a bid that filled, waits or was never found.
  pub poll_rows-refunded :
      (cfg : Config F) (r : Reads F) (ttl : ℕ) (answers : Row F → Answers F) (rows : List (Row F))
      → refunded (poll_rows cfg r ttl answers rows).1 ≡ dead_notionals cfg r ttl answers rows
  unfolding poll_rows
  poll_rows-refunded cfg r ttl answers [] = refl
  poll_rows-refunded cfg r ttl answers (row ∷ rows) =
      let rest = poll_rows-refunded cfg r ttl answers rows in
      elim (Bool-cases (is_mine r.mode row)) [
        | inl m ↦ rw m (
            refunded-append (poll_row cfg r ttl (answers row) row).1
              (poll_rows cfg r ttl answers rows).1
            ∙ ap₂ ◌++◌
                (poll_row-IsRefunded cfg r ttl (answers row) row (is_mine-pending r.mode row m))
                rest)
        | inr m ↦ rw m rest
      ]
