-- ===== src/Candles/Heal.antt =====
-- `gap_heal` of deepfield/reconciler.py. The fetch and the clock are parameters, the reply of a
-- fetch that fails is the empty list, and the log lines are left out.
use oracle_deepfield.Base.{
  ℕ, ◌+◌, ◌*◌, Bool, true, false, ◌&&◌, ◌||◌, Option, none, some, List, [], ◌∷◌, leb, if◌then◌else◌,
  take_last,
}
use oracle_deepfield.Base.Names.{Name, name_lookup}
use oracle_deepfield.Num.{Float}
use oracle_deepfield.Candles.Table.{Bar, key_of, upsert_candle, find_bar}

-- A row of the venue's reply.
pub record RestRow (F : Type 0) : Type 0 where
  pub ts : ℕ
  pub o : F
  pub h : F
  pub l : F
  pub c : F
  pub v : F

-- What a pass reads from outside: the REST names of the pairs, the replies, and the time at which
-- each reply came.
pub record Venue (F : Type 0) : Type 0 where
  pub rest_names : List (Name × Name)
  pub fetch_ohlc : Name → ℕ → List (RestRow F)
  pub now : Name → ℕ → ℕ

abbrev pub same_flag : Bool → Bool → Bool
same_flag true b = b
same_flag false true = false
same_flag false false = true

abbrev pub one_if : Bool → ℕ
one_if b = if b then 1 else 0

module _ {F : Type 0} where
  -- `rest_by_ws.get(ws, ws)`
  abbrev pub rest_name : Venue F → Name → Name
  rest_name src ws = elim (name_lookup ws src.rest_names) [ none ↦ ws | some r ↦ r ]

  -- A row as a bar; it is closed once its interval is over.
  unfoldable pub bar_of : Name → ℕ → ℕ → RestRow F → Bar F
  bar_of ws interval now r = record {
    pair = ws;
    interval = interval;
    ts = r.ts;
    o = r.o;
    h = r.h;
    l = r.l;
    c = r.c;
    v = r.v;
    closed = leb (r.ts + interval * 60) now;
  }

module _ {F : Type 0} ⦃fl : Float F⦄ where
  open fl use {eq}

  -- `tuple(existing) == new`
  abbrev pub same_values : Bar F → Bar F → Bool
  same_values a b =
      eq a.o b.o
      && eq a.h b.h
      && eq a.l b.l
      && eq a.c b.c
      && eq a.v b.v
      && same_flag a.closed b.closed

  -- One row: a missing bar is inserted, a changed one overwritten; a closed bar counts as a repair.
  unfoldable pub heal_found : Bar F → Option (Bar F) → List (Bar F) → List (Bar F) × ℕ
  unfolding upsert_candle
  heal_found new none t = (upsert_candle new t, one_if new.closed)
  heal_found new (some old) t =
      if same_values old new
      then (t, 0)
      else (upsert_candle new t, one_if (old.closed || new.closed))

  unfoldable pub heal_bar : Bar F → List (Bar F) → List (Bar F) × ℕ
  unfolding heal_found
  heal_bar new t = heal_found new (find_bar (key_of new) t) t

  -- The rows of one reply.
  unfoldable pub heal_rows : Name → ℕ → ℕ → List (RestRow F) → List (Bar F) → List (Bar F) × ℕ
  unfolding heal_bar bar_of
  heal_rows ws interval now [] t = (t, 0)
  heal_rows ws interval now (r ∷ rs) t =
      let (t', n) = heal_bar (bar_of ws interval now r) t in
      let (t'', m) = heal_rows ws interval now rs t' in (t'', n + m)

  -- The intervals of one pair; only the last `recent` rows of a reply are compared.
  unfoldable pub heal_intervals : Venue F → ℕ → Name → List ℕ → List (Bar F) → List (Bar F) × ℕ
  unfolding heal_rows
  heal_intervals src recent ws [] t = (t, 0)
  heal_intervals src recent ws (i ∷ is) t =
      let (t', n) =
        heal_rows ws i (src.now ws i) (take_last recent (src.fetch_ohlc (rest_name src ws) i)) t in
      let (t'', m) = heal_intervals src recent ws is t' in (t'', n + m)

  -- `gap_heal`: the table, and the number of repairs.
  unfoldable pub gap_heal : Venue F → ℕ → List Name → List ℕ → List (Bar F) → List (Bar F) × ℕ
  unfolding heal_intervals
  gap_heal src recent [] intervals t = (t, 0)
  gap_heal src recent (ws ∷ symbols) intervals t =
      let (t', n) = heal_intervals src recent ws intervals t in
      let (t'', m) = gap_heal src recent symbols intervals t' in (t'', n + m)
