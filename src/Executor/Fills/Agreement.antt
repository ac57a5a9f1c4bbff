-- ===== src/Executor/Fills/Agreement.antt =====
-- The row of a bid against the order at the venue, over any interleaving of the venue's own steps
-- with polls whose answers may be lost.
use oracle_deepfield.Base.{
  ℕ, Bool, true, false, ◌≡◌, inl, inr, refl, sym, ap, ◌∙◌, subst, Option, none, some, List, [],
  ◌||◌, arith, if_splits, if_keeps, Bool-cases,
}
use oracle_deepfield.Base.Names.{Name}
use oracle_deepfield.Num.{Float, nought}
use oracle_deepfield.Executor.Ledger.{Row, pending, open_, canceled}
use oracle_deepfield.Executor.Venue.{Config, Reads}
use oracle_deepfield.Executor.Fills.Machine.{rest_stop_keeps}
use oracle_deepfield.Executor.Fills.{
  is_terminal, Report, Answers, Effect, settle_row, after_cancel, poll_report, poll_row, poll_txid,
  entry_ttl_expired,
}

-- The order at the venue is what a truthful report of it says. A terminal order is final.
pub data Evolves {F : Type 0} (x y : Report F) : Type 0 where
  works : is_terminal x.status ≡ false → Evolves x y
  final : y ≡ x → Evolves x y

-- A query is lost, or it tells what the order is then.
pub data Tells {F : Type 0} : Option (Report F) → Report F → Type 0 where
  lost : {x : Report F} → Tells none x
  told : {x : Report F} → Tells (some x) x

module _ {F : Type 0} ⦃fl : Float F⦄ where
  open fl use {lt}

  -- The venue moves alone, or a pending row is polled while it moves: the batch tells the order
  -- as it is first, and the query after a cancel tells it later.
  pub data Step (cfg : Config F) (ttl : ℕ) : Report F × Row F → Report F × Row F → Type 0 where
    drift : {x y : Report F} {row : Row F} → Evolves x y → Step cfg ttl (x, row) (y, row)
    poll :
        {x y z : Report F} {row : Row F} (r : Reads F) (a : Answers F)
        → row.status ≡ pending
        → Tells a.batch x
        → Evolves x y
        → Tells a.settled y
        → Evolves y z
        → Step cfg ttl (x, row) (z, (poll_row cfg r ttl a row).0)

  pub data Reach (cfg : Config F) (ttl : ℕ) (s : Report F × Row F) : Report F × Row F → Type 0 where
    here : Reach cfg ttl s s
    next : {t u : Report F × Row F} → Reach cfg ttl s t → Step cfg ttl t u → Reach cfg ttl s u

  -- A row that waits has its txid; a position is what the order executed in full; a dead bid
  -- executed nothing.
  pub data Agrees (s : Report F × Row F) : Type 0 where
    waiting : s.1.status ≡ pending → (given : Name) → s.1.txid ≡ some given → Agrees s
    held :
        s.1.status ≡ open_
        → is_terminal s.0.status ≡ true
        → lt nought s.0.vol_exec ≡ true
        → s.1.volume ≡ s.0.vol_exec
        → Agrees s
    dead :
        s.1.status ≡ canceled
        → is_terminal s.0.status ≡ true
        → lt nought s.0.vol_exec ≡ false
        → Agrees s

  Evolves-final : {x y : Report F} → Evolves x y → is_terminal x.status ≡ true → y ≡ x
  Evolves-final (works n) t = absurd (ground arith)
  Evolves-final (final e) t = e

  -- The poll of a row with a txid leaves it, or settles it on a terminal report.
  pub data Polled (cfg : Config F) (r : Reads F) (a : Answers F) (row result : Row F) : Type 0 where
    stays : result ≡ row → Polled cfg r a row result
    by_batch :
        (o : Report F)
        → a.batch ≡ some o
        → is_terminal o.status ≡ true
        → result ≡ (settle_row cfg r o row).0
        → Polled cfg r a row result
    by_cancel :
        (o : Report F)
        → a.settled ≡ some o
        → is_terminal o.status ≡ true
        → result ≡ (settle_row cfg r o row).0
        → Polled cfg r a row result

  after_cancel-Polled :
      (cfg : Config F) (r : Reads F) (a : Answers F) (row : Row F) (acked : Bool)
      (settled : Option (Report F))
      → a.settled ≡ settled
      → Polled cfg r a row (after_cancel cfg r acked settled row).0
  unfolding after_cancel
  after_cancel-Polled cfg r a row false settled e = stays refl
  after_cancel-Polled cfg r a row true none e = stays refl
  after_cancel-Polled cfg r a row true (some o) e =
      if_splits {A = Row F × List (Effect F)} (λ v. Polled cfg r a row v.0) (is_terminal o.status) _
        _ (λ t. by_cancel o e t refl) (λ _. stays refl)

  poll_report-Polled :
      (cfg : Config F) (r : Reads F) (ttl : ℕ) (a : Answers F) (row : Row F)
      (report : Option (Report F))
      → a.batch ≡ report
      → Polled cfg r a row (poll_report cfg r ttl a report row).0
  unfolding poll_report
  poll_report-Polled cfg r ttl a row none e = stays refl
  poll_report-Polled cfg r ttl a row (some o) e =
      let P : Row F × List (Effect F) → Type 0 = λ v. Polled cfg r a row v.0 in
      if_splits P (is_terminal o.status) _ _ (λ t. by_batch o e t refl)
        (λ _.
          if_keeps P (lt nought o.vol_exec || entry_ttl_expired ttl r.now row.ts)
            (after_cancel cfg r a.cancel_acked a.settled row) (row, [])
            (after_cancel-Polled cfg r a row a.cancel_acked a.settled refl) (stays refl))

  poll_txid-Polled :
      (cfg : Config F) (r : Reads F) (ttl : ℕ) (a : Answers F) (row : Row F) (given : Option Name)
      (g : Name)
      → given ≡ some g
      → Polled cfg r a row (poll_txid cfg r ttl a given row).0
  unfolding poll_txid
  poll_txid-Polled cfg r ttl a row none g e = absurd (ground arith)
  poll_txid-Polled cfg r ttl a row (some given) g e =
      poll_report-Polled cfg r ttl a row a.batch refl

  pub poll_row-Polled :
      (cfg : Config F) (r : Reads F) (ttl : ℕ) (a : Answers F) (row : Row F) (g : Name)
      → row.txid ≡ some g
      → Polled cfg r a row (poll_row cfg r ttl a row).0
  unfolding poll_row
  poll_row-Polled cfg r ttl a row g e = poll_txid-Polled cfg r ttl a row row.txid g e

  settled-Agrees :
      (cfg : Config F) (r : Reads F) (o : Report F) (row : Row F)
      → is_terminal o.status ≡ true
      → Agrees (o, (settle_row cfg r o row).0)
  unfolding settle_row
  settled-Agrees cfg r o row t = elim (Bool-cases (lt nought o.vol_exec)) [
    | inl v ↦
        let (st, vo) = rest_stop_keeps cfg r (record row { status = open_; volume = o.vol_exec }) in
        rw v (held st t v vo)
    | inr v ↦ rw v (dead refl t v)
  ]

  settle_row-Agrees :
      (cfg : Config F) (r : Reads F) (o z : Report F) (row result : Row F)
      → z ≡ o
      → is_terminal o.status ≡ true
      → result ≡ (settle_row cfg r o row).0
      → Agrees (z, result)
  settle_row-Agrees cfg r o z row result e t k =
      subst (λ v. Agrees (v, result)) (sym e)
        (subst (λ v. Agrees (o, v)) (sym k) (settled-Agrees cfg r o row t))

  Tells-some :
      {q : Option (Report F)} {x : Report F} (o : Report F) → Tells q x → q ≡ some o → o ≡ x
  Tells-some o lost e = absurd (ground arith)
  Tells-some o told e = ground arith

  -- Whatever the order does between the batch and the end of the poll, a terminal one stays.
  stay_final : {x y z : Report F} → Evolves x y → Evolves y z → is_terminal x.status ≡ true → z ≡ x
  stay_final xy yz t =
      let e = Evolves-final xy t in
      Evolves-final yz (subst (λ v. is_terminal v.status ≡ true) (sym e) t) ∙ e

  stays-Agrees :
      {x z : Report F} {row result : Row F}
      → Agrees (x, row)
      → row.status ≡ pending
      → result ≡ row
      → Agrees (z, result)
  stays-Agrees (waiting p g t) q k = waiting (ap (λ v. v.status) k ∙ p) g (ap (λ v. v.txid) k ∙ t)
  stays-Agrees (held p t v w) q k = absurd (ground arith)
  stays-Agrees (dead p t v) q k = absurd (ground arith)

  poll-Agrees :
      (cfg : Config F) (r : Reads F) (a : Answers F) {x y z : Report F} {row result : Row F}
      → Agrees (x, row)
      → row.status ≡ pending
      → Tells a.batch x
      → Evolves x y
      → Tells a.settled y
      → Evolves y z
      → Polled cfg r a row result
      → Agrees (z, result)
  poll-Agrees cfg r a h p b xy s yz (stays k) = stays-Agrees h p k
  poll-Agrees cfg r a h p b xy s yz (by_batch o e t k) =
      let ox = Tells-some o b e in
      settle_row-Agrees cfg r o _ _ _
        (stay_final xy yz (subst (λ v. is_terminal v.status ≡ true) ox t) ∙ sym ox) t k
  poll-Agrees cfg r a h p b xy s yz (by_cancel o e t k) =
      let oy = Tells-some o s e in
      settle_row-Agrees cfg r o _ _ _
        (Evolves-final yz (subst (λ v. is_terminal v.status ≡ true) oy t) ∙ sym oy) t k

  -- A pending row that agrees has a txid.
  Agrees-txid :
      {s : Report F × Row F} → Agrees s → s.1.status ≡ pending → (g : Name) × (s.1.txid ≡ some g)
  Agrees-txid (waiting p g t) q = (g, t)
  Agrees-txid (held p t v w) q = absurd (ground arith)
  Agrees-txid (dead p t v) q = absurd (ground arith)

  drift-Agrees : (x y : Report F) (row : Row F) → Evolves x y → Agrees (x, row) → Agrees (y, row)
  drift-Agrees x y row e (waiting p g t) = waiting p g t
  drift-Agrees x y row e (held p t v w) =
      subst (λ u. Agrees (u, row)) (sym (Evolves-final e t)) (held p t v w)
  drift-Agrees x y row e (dead p t v) =
      subst (λ u. Agrees (u, row)) (sym (Evolves-final e t)) (dead p t v)

  Step-Agrees :
      (cfg : Config F) (ttl : ℕ) {s t : Report F × Row F} → Step cfg ttl s t → Agrees s → Agrees t
  Step-Agrees cfg ttl (drift {x = x} {y = y} {row = row} e) h = drift-Agrees x y row e h
  Step-Agrees cfg ttl (poll {row = row} r a p b xy s yz) h =
      let (g, t) = Agrees-txid h p in
      poll-Agrees cfg r a h p b xy s yz (poll_row-Polled cfg r ttl a row g t)

  -- From a resting bid with its txid, any interleaving of the venue's own steps with polls, of
  -- which any answers may be lost, keeps the book true: a row that became a position stands for a
  -- terminal order and carries the whole volume that it executed, and a row that was canceled
  -- stands for a terminal order that executed nothing; a terminal order is taken to be final.
  pub Reach-Agrees :
      (cfg : Config F) (ttl : ℕ) (x : Report F) (row : Row F) (given : Name) (t : Report F × Row F)
      → row.status ≡ pending
      → row.txid ≡ some given
      → Reach cfg ttl (x, row) t
      → Agrees t
  Reach-Agrees cfg ttl x row given t p g here = waiting p given g
  Reach-Agrees cfg ttl x row given t p g (next {t = u} k e) =
      Step-Agrees cfg ttl e (Reach-Agrees cfg ttl x row given u p g k)
