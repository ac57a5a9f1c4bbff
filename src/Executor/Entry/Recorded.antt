-- ===== src/Executor/Entry/Recorded.antt =====
-- What `place_entry` records of what it sends, and when it spends from the respend bucket.
use oracle_deepfield.Base.{
  ℕ, Bool, true, false, ◌≡◌, sym, subst, refl, Option, none, some, [], ◌∷◌, ◌++◌, arith, if_keeps,
  any_of, not,
}
use oracle_deepfield.Base.Names.{Name, name_eq}
use oracle_deepfield.Num.{Float}
use oracle_deepfield.Executor.Ledger.{Status, Row, pending, rejected}
use oracle_deepfield.Executor.Rails.{armed, rails_ok, portfolio_value}
use oracle_deepfield.Executor.Bucket.{Bucket, respend_budget_ok}
use oracle_deepfield.Executor.Sizing.{Conviction, Sizing, notional_ceiling_ok}
use oracle_deepfield.Executor.Gates.{accumulation_allowed}
use oracle_deepfield.Executor.Venue.{
  Request, Config, Reads, World, landed, insert_order, send, session_of, is_off,
}
use oracle_deepfield.Executor.Entry.{
  Ticket, entry_row, entry_request, record_answer, send_live, submit, budgeted, checked_ceiling,
  levered, railed, place_entry, place_entry_checked, leverage_of, paired, ticketed, resting_row,
  ambiguous_row, rejected_row, spend, ticket_of,
}

-- What a row says of the answer to its order: a txid where the order rests, a pending row without
-- one where the answer is ambiguous, a rejected row where it is a definite refusal.
abbrev pub Reflects : Option Name → Bool → Status → Option Name → Type 0
Reflects (some given) definite status txid = (status ≡ pending) × (txid ≡ some given)
Reflects none false status txid = (status ≡ pending) × (txid ≡ none)
Reflects none true status txid = (status ≡ rejected) × (txid ≡ none)

module _ {F : Type 0} ⦃fl : Float F⦄ where
  pub record IsSame (w v : World F) : Type 0 where
    pub same_orders : v.orders ≡ w.orders
    pub same_sent : v.sent ≡ w.sent
    pub same_id : v.next_id ≡ w.next_id

  pub record IsOneOrder (r : Reads F) (w v : World F) : Type 0 where
    pub row : Row F
    pub request : Request F
    pub one_row : v.orders ≡ w.orders ++ row ∷ []
    pub one_request : v.sent ≡ w.sent ++ request ∷ []
    pub its_id : row.id ≡ w.next_id
    pub its_userref : row.userref ≡ request.userref
    pub reflects :
        Reflects (landed (r.reply request)) (r.reply request).definite row.status row.txid

  -- Nothing at all, or one row for one request.
  abbrev pub IsPlacement : Reads F → World F → Option ℕ × World F → Type 0
  IsPlacement r w (none, v) = IsSame w v
  IsPlacement r w (some i, v) = (i ≡ w.next_id) × IsOneOrder r w v

  insert_order-IsPlacement :
      (cfg : Config F) (r : Reads F) (t : Ticket F) (w : World F) (row : Row F)
      (b : Option (Bucket F)) (o : Option Name) (d : Bool)
      → let q = entry_request cfg r t false in
        landed (r.reply q) ≡ o
        → (r.reply q).definite ≡ d
        → row.userref ≡ some r.new_userref
        → Reflects o d row.status row.txid
        → IsPlacement r w (insert_order row (record (send q w) { bucket = b }))
  unfolding insert_order entry_request
  insert_order-IsPlacement cfg r t w row b o d e f u h = (
    refl,
    record {
      row = record row { id = w.next_id };
      request = entry_request cfg r t false;
      one_row = refl;
      one_request = refl;
      its_id = refl;
      its_userref = u;
      reflects = rw (e, f) h;
    },
  )

  record_answer-IsPlacement :
      (cfg : Config F) (r : Reads F) (t : Ticket F) (w : World F) (o : Option Name) (d : Bool)
      → let q = entry_request cfg r t false in
        landed (r.reply q) ≡ o
        → (r.reply q).definite ≡ d
        → IsPlacement r w (record_answer cfg r t o d (send q w))
  unfolding record_answer entry_row
  record_answer-IsPlacement cfg r t w (some txid) d e f =
      insert_order-IsPlacement cfg r t w (resting_row cfg r t txid) (spend cfg r t w).bucket
        (some txid) d e f refl (refl, refl)
  record_answer-IsPlacement cfg r t w none false e f =
      insert_order-IsPlacement cfg r t w (ambiguous_row cfg r t) w.bucket none false e f refl
        (refl, refl)
  record_answer-IsPlacement cfg r t w none true e f =
      insert_order-IsPlacement cfg r t w (rejected_row cfg r t) w.bucket none true e f refl
        (refl, refl)

  submit_armed :
      (cfg : Config F) (r : Reads F) (t : Ticket F) (w : World F)
      → armed r.mode r.sim_attached ≡ true
      → submit cfg r t w ≡ send_live cfg r t w
  unfolding submit armed
  submit_armed cfg r t w a = ground arith

  submit-IsPlacement :
      (cfg : Config F) (r : Reads F) (t : Ticket F) (w : World F)
      → armed r.mode r.sim_attached ≡ true
      → IsPlacement r w (submit cfg r t w)
  unfolding send_live
  submit-IsPlacement cfg r t w a =
      subst (IsPlacement r w) (sym (submit_armed cfg r t w a))
        (record_answer-IsPlacement cfg r t w _ _ refl refl)

  -- A world where only the peak and the bucket changed.
  abbrev moved : Option F → Option (Bucket F) → World F → World F
  moved peak b w = record w { peak_equity = peak; bucket = b }

  stays :
      (r : Reads F) (w : World F) (peak : Option F) (b : Option (Bucket F))
      → IsPlacement r w (none, moved peak b w)
  stays r w peak b = record { same_orders = refl; same_sent = refl; same_id = refl }

  moved-IsPlacement :
      (r : Reads F) (w : World F) (peak : Option F) (b : Option (Bucket F)) (v : Option ℕ × World F)
      → IsPlacement r (moved peak b w) v
      → IsPlacement r w v
  moved-IsPlacement r w peak b (none, v) h = record {
    same_orders = h.same_orders;
    same_sent = h.same_sent;
    same_id = h.same_id;
  }
  moved-IsPlacement r w peak b (some i, v) (e, h) = (
    e,
    record {
      row = h.row;
      request = h.request;
      one_row = h.one_row;
      one_request = h.one_request;
      its_id = h.its_id;
      its_userref = h.its_userref;
      reflects = h.reflects;
    },
  )

  budgeted-IsPlacement :
      (cfg : Config F) (r : Reads F) (t : Ticket F) (w : World F)
      → armed r.mode r.sim_attached ≡ true
      → IsPlacement r w (budgeted cfg r t w)
  unfolding budgeted
  budgeted-IsPlacement cfg r t w a =
      let spent = respend_budget_ok cfg.pace t.sizing.notional r.checked_at w.bucket in
      if_keeps (IsPlacement r w) t.respend _ _
        (if_keeps (IsPlacement r w) spent.0 _ _
          (moved-IsPlacement r w w.peak_equity spent.1 _
            (submit-IsPlacement cfg r t (moved w.peak_equity spent.1 w) a))
          (stays r w w.peak_equity spent.1))
        (submit-IsPlacement cfg r t w a)

  ticketed-IsPlacement :
      (cfg : Config F) (r : Reads F) (symbol pair : Name) (price : F) (card : Option Conviction)
      (respend : Bool) (leverage stop : F) (sizing : Option (Sizing F)) (w : World F)
      → armed r.mode r.sim_attached ≡ true
      → IsPlacement r w (ticketed cfg r symbol pair price card respend leverage stop sizing w)
  unfolding ticketed checked_ceiling
  ticketed-IsPlacement cfg r symbol pair price card respend leverage stop none w a =
      stays r w w.peak_equity w.bucket
  ticketed-IsPlacement cfg r symbol pair price card respend leverage stop (some sizing) w a =
      if_keeps (IsPlacement r w) (notional_ceiling_ok cfg.sizes sizing) _ _
        (budgeted-IsPlacement cfg r
          (ticket_of r symbol pair price card respend leverage stop sizing) w a)
        (stays r w w.peak_equity w.bucket)

  levered-IsPlacement :
      (cfg : Config F) (r : Reads F) (symbol pair : Name) (price : F) (card : Option Conviction)
      (respend : Bool) (equity leverage : Option F) (w : World F)
      → armed r.mode r.sim_attached ≡ true
      → IsPlacement r w (levered cfg r symbol pair price card respend equity leverage w)
  unfolding levered
  levered-IsPlacement cfg r symbol pair price card respend equity none w a =
      stays r w w.peak_equity w.bucket
  levered-IsPlacement cfg r symbol pair price card respend equity (some leverage) w a =
      ticketed-IsPlacement cfg r symbol pair price card respend leverage _ _ w a

  railed-IsPlacement :
      (cfg : Config F) (r : Reads F) (symbol pair : Name) (price : F) (card : Option Conviction)
      (respend : Bool) (w : World F)
      → armed r.mode r.sim_attached ≡ true
      → IsPlacement r w (railed cfg r symbol pair price card respend w)
  unfolding railed
  railed-IsPlacement cfg r symbol pair price card respend w a =
      let (equity, s) = portfolio_value cfg.paper_portfolio_usd r.balance (session_of r w) in
      if_keeps (IsPlacement r w) (rails_ok cfg.limits s equity).0 _ _
        (moved-IsPlacement r w s.peak_equity w.bucket _ (
          levered-IsPlacement cfg r symbol pair price card respend equity (leverage_of cfg symbol)
            (moved s.peak_equity w.bucket w) a))
        (stays r w s.peak_equity w.bucket)

  paired-IsPlacement :
      (cfg : Config F) (r : Reads F) (symbol : Name) (pair : Option Name) (price : F)
      (card : Option Conviction) (respend : Bool) (w : World F)
      → armed r.mode r.sim_attached ≡ true
      → IsPlacement r w (paired cfg r symbol pair price card respend w)
  unfolding paired
  paired-IsPlacement cfg r symbol none price card respend w a = stays r w w.peak_equity w.bucket
  paired-IsPlacement cfg r symbol (some pair) price card respend w a =
      let same = stays r w w.peak_equity w.bucket in
      if_keeps (IsPlacement r w) (any_of (name_eq symbol) cfg.excluded_pairs) _ _ same (
        if_keeps (IsPlacement r w) (not (accumulation_allowed cfg.regime_gate r.regime)) _ _ same
          (railed-IsPlacement cfg r symbol pair price card respend w a))

  -- In an armed mode an entry sends nothing and leaves the orders table as it was, or it sends one
  -- order and records one row for it under its client order id: pending with the txid where the
  -- venue took the order, pending without one where the answer is ambiguous, and rejected where it
  -- was refused.
  pub place_entry-IsPlacement :
      (cfg : Config F) (r : Reads F) (symbol : Name) (price : F) (card : Option Conviction)
      (respend : Bool) (w : World F)
      → armed r.mode r.sim_attached ≡ true
      → IsPlacement r w (place_entry cfg r symbol price card respend w)
  unfolding place_entry place_entry_checked
  place_entry-IsPlacement cfg r symbol price card respend w a =
      if_keeps (IsPlacement r w) (is_off r.mode) _ _ (stays r w w.peak_equity w.bucket)
        (paired-IsPlacement cfg r symbol _ price card respend w a)
