-- ===== src/Ingest.antt =====
-- deepfield/ingest.py: what the closing of a bar does to the candle table and to the scoring,
-- `handle_candle_closed`, `apply_rest_confirm`, `find_overdue` and `_advance_countdown`. Times are in
-- seconds and intervals in minutes; a recompute of the confirmed card or of the regime is an effect
-- that carries the closed series it reads. The texts of the log are left out.
pub mod Closes
mod Tests
use oracle_deepfield.Base.{
  ℕ, ◌+◌, ◌-◌, ◌*◌, ◌%◌, Bool, true, false, not, ◌&&◌, ◌||◌, Option, none, some, List, [], ◌∷◌,
  ◌++◌, map, ltb, leb, ◌==◌, if◌then◌else◌, keep, any_of, take_last,
}
use oracle_deepfield.Base.Names.{Name, name_eq, name_lookup}
use oracle_deepfield.Scoring.Engine.{Weekly}
use oracle_deepfield.Candles.Table.{
  Bar, Key, same_key, upsert_candle, flip_closed, get_forming, load_weekly_daily_closed,
}
use oracle_deepfield.Candles.Heal.{RestRow, bar_of}

-- SIGNAL_INTERVALS, REST_CONFIRM_DEFER_SECS, CLOSE_GRACE_SECS, BTC_SYMBOL, and the pairs with their
-- names on the feed and at the REST endpoint.
pub record Setup : Type 0 where
  pub signal_intervals : List ℕ
  pub rest_confirm_defer_secs : ℕ
  pub close_grace_secs : ℕ
  pub btc_symbol : Name
  pub pairs : List (Name × Name)

-- A CandleClosed event: the key of the bar, and the instant at which it closed.
abbrev pub close_at : Key → ℕ
close_at ev = ev.ts + ev.interval * 60

-- `_recompute_confirmed` with its `fire`, and `_recompute_regime`
pub data Done (F : Type 0) : Type 0 where
  scored : Name → Bool → Weekly F × List F → Done F
  regime_read : Done F

-- `_last_fired`, `_rest_defer`, the symbols with a provisional card, the countdowns of the display
-- and the candle table
pub record Feed (F : Type 0) : Type 0 where
  pub last_fired : List (Name × ℕ)
  pub rest_defer : List (Key × ℕ)
  pub provisional : List Name
  pub daily_begin : Option ℕ
  pub weekly_begin : Option ℕ
  pub bars : List (Bar F)

-- `close_at > self._last_fired.get(symbol, -1)`
abbrev pub is_later : Option ℕ → ℕ → Bool
is_later none t = true
is_later (some u) t = ltb u t

-- `_rest_defer.pop(key, None)`
abbrev pub pop_key : Key → List (Key × ℕ) → List (Key × ℕ)
pop_key k = keep (λ e. not (same_key e.0 k))

abbrev pub first_failure : Key → List (Key × ℕ) → Option ℕ
first_failure k [] = none
first_failure k ((j, t) ∷ m) = if same_key j k then some t else first_failure k m

-- The bar of another interval that closes at the same instant.
abbrev pub sibling : Key → ℕ → Key
sibling ev other = record { pair = ev.pair; interval = other; ts = close_at ev - other * 60 }

abbrev pub is_coincident : Key → ℕ → Bool
is_coincident ev other = not (other == ev.interval) && close_at ev % (other * 60) == 0

-- `_advance_countdown` on one of its fields
abbrev pub begin_after : Option ℕ → ℕ → Option ℕ
begin_after none t = if ltb 0 t then some t else none
begin_after (some u) t = if ltb u t then some t else some u

module _ {F : Type 0} where
  -- The bars of the other intervals that close at the same instant are closed too.
  unfoldable pub flip_siblings : Key → List ℕ → Feed F → Feed F
  unfolding flip_closed
  flip_siblings ev [] s = s
  flip_siblings ev (other ∷ others) s =
      if is_coincident ev other
      then flip_siblings ev others (record s {
        bars = (flip_closed (sibling ev other) s.bars).1;
        rest_defer = pop_key (sibling ev other) s.rest_defer;
      })
      else flip_siblings ev others s

  -- The first sight of a close instant is the one that fires.
  unfoldable pub note_close : Setup → Key → Bool → Feed F → Feed F
  unfolding flip_siblings
  note_close cfg ev false s = s
  note_close cfg ev true s =
      flip_siblings ev cfg.signal_intervals
        (record s { last_fired = (ev.pair, close_at ev) ∷ s.last_fired })

  abbrev pub forget_defer : Key → Feed F → Feed F
  forget_defer ev s = record s { rest_defer = pop_key ev s.rest_defer }

  -- The recomputes of a close.
  unfoldable pub recomputes : Setup → Key → Bool → List (Bar F) → List (Done F)
  unfolding load_weekly_daily_closed name_eq
  recomputes cfg ev fire t =
      scored ev.pair fire (load_weekly_daily_closed ev.pair t)
      ∷ (if name_eq ev.pair cfg.btc_symbol then regime_read ∷ [] else [])

  -- A close of an interval that is scored, its bar being closed already.
  unfoldable pub score_close : Setup → Key → Feed F → Feed F × List (Done F)
  unfolding note_close recomputes name_eq
  score_close cfg ev s =
      let fire = is_later (name_lookup ev.pair s.last_fired) (close_at ev) in
      let cleared : Feed F = record s {
        provisional = keep (λ n. not (name_eq n ev.pair)) s.provisional;
      } in
      let end = forget_defer ev (note_close cfg ev fire cleared) in
      (end, recomputes cfg ev fire end.bars)

  -- `handle_candle_closed`
  unfoldable pub handle_candle_closed : Setup → Key → Feed F → Feed F × List (Done F)
  unfolding flip_closed score_close
  handle_candle_closed cfg ev s =
      let flipped : Feed F = record s { bars = (flip_closed ev s.bars).1 } in
      if any_of (λ i. i == ev.interval) cfg.signal_intervals
      then score_close cfg ev flipped
      else (forget_defer ev flipped, [])

  -- `_advance_countdown`
  unfoldable pub advance_countdown : ℕ → ℕ → Feed F → Feed F
  advance_countdown interval begin s =
      if interval == 1440
      then record s { daily_begin = begin_after s.daily_begin begin }
      else if interval == 10080
      then record s { weekly_begin = begin_after s.weekly_begin begin }
      else s

  -- The recent rows of a confirm, from the overdue bar on.
  unfoldable pub confirm_rows : Key → ℕ → List (RestRow F) → Feed F → Feed F
  unfolding upsert_candle bar_of advance_countdown
  confirm_rows k now [] s = s
  confirm_rows k now (r ∷ rs) s =
      let b = bar_of k.pair k.interval now r in
      let written : Feed F = record s { bars = upsert_candle b s.bars } in
      if ltb r.ts k.ts
      then confirm_rows k now rs s
      else confirm_rows k now rs
          (if b.closed then written else advance_countdown k.interval r.ts written)

  -- A confirm that failed, with the time of the first failure: the bar stays as it is until the
  -- ceiling, and is then closed on the clock.
  unfoldable pub defer_close : Setup → Key → ℕ → Option ℕ → Feed F → Feed F × List (Done F)
  unfolding handle_candle_closed
  defer_close cfg k now none s =
      if ltb 0 cfg.rest_confirm_defer_secs
      then (record s { rest_defer = (k, now) ∷ s.rest_defer }, [])
      else handle_candle_closed cfg k (forget_defer k s)
  defer_close cfg k now (some first) s =
      if ltb now (first + cfg.rest_confirm_defer_secs)
      then (s, [])
      else handle_candle_closed cfg k (forget_defer k s)

  -- `apply_rest_confirm`
  unfoldable pub apply_rest_confirm :
      Setup → Key → ℕ → List (RestRow F) → Feed F → Feed F × List (Done F)
  unfolding defer_close handle_candle_closed confirm_rows
  apply_rest_confirm cfg k now [] s = defer_close cfg k now (first_failure k s.rest_defer) s
  apply_rest_confirm cfg k now (r ∷ rs) s =
      handle_candle_closed cfg k (confirm_rows k now (take_last 4 (r ∷ rs)) (forget_defer k s))

  -- The forming bar of one series, where it is overdue.
  abbrev pub overdue_of : Setup → ℕ → ℕ → Option (Bar F) → List Key
  overdue_of cfg now i none = []
  overdue_of cfg now i (some b) =
      if leb (b.ts + i * 60 + cfg.close_grace_secs) now
      then record { pair = b.pair; interval = i; ts = b.ts } ∷ []
      else []

  unfoldable pub overdue_in : Setup → ℕ → List (Bar F) → Name → List ℕ → List Key
  unfolding get_forming
  overdue_in cfg now t ws [] = []
  overdue_in cfg now t ws (i ∷ is) =
      overdue_of cfg now i (get_forming ws i t) ++ overdue_in cfg now t ws is

  unfoldable pub overdue_pairs : Setup → ℕ → List (Bar F) → List (Name × Name) → List (Key × Name)
  unfolding overdue_in
  overdue_pairs cfg now t [] = []
  overdue_pairs cfg now t ((ws, rest) ∷ pairs) =
      map (λ k. (k, rest)) (overdue_in cfg now t ws cfg.signal_intervals)
      ++ overdue_pairs cfg now t pairs

  -- `find_overdue`
  unfoldable pub find_overdue : Setup → ℕ → List (Bar F) → List (Key × Name)
  unfolding overdue_pairs
  find_overdue cfg now t = overdue_pairs cfg now t cfg.pairs

  -- One turn of `clock_close_watchdog`: the deferrals of bars that are no longer overdue go, and
  -- every overdue bar is confirmed. The replies and the times at which they come are given.
  unfoldable pub confirm_all :
      Setup
      → (Name → ℕ → List (RestRow F))
      → (Key → ℕ)
      → List (Key × Name)
      → Feed F
      → Feed F × List (Done F)
  unfolding apply_rest_confirm
  confirm_all cfg fetch_ohlc clock [] s = (s, [])
  confirm_all cfg fetch_ohlc clock ((k, rest) ∷ overdue) s =
      let (s', done) = apply_rest_confirm cfg k (clock k) (fetch_ohlc rest k.interval) s in
      let (end, more) = confirm_all cfg fetch_ohlc clock overdue s' in (end, done ++ more)

  unfoldable pub watchdog_pass :
      Setup → (Name → ℕ → List (RestRow F)) → (Key → ℕ) → ℕ → Feed F → Feed F × List (Done F)
  unfolding find_overdue confirm_all
  watchdog_pass cfg fetch_ohlc clock now s =
      let overdue = find_overdue cfg now s.bars in
      confirm_all cfg fetch_ohlc clock overdue
        (record s { rest_defer = keep (λ e. any_of (λ o. same_key o.0 e.0) overdue) s.rest_defer })
