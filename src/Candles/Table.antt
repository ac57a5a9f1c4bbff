-- ===== src/Candles/Table.antt =====
-- The candles table of deepfield/store.py: `upsert_candle`, `flip_closed`, the queries on the latest
-- and the forming bar, and the closed series for the engine and for the volatility table.
use oracle_deepfield.Base.{
  ℕ, Bool, true, not, ◌&&◌, Option, none, some, List, [], ◌∷◌, map, ltb, leb, ◌==◌, if◌then◌else◌,
  keep, find_of, count_of,
}
use oracle_deepfield.Base.Names.{Name, name_eq}
use oracle_deepfield.Paper.Book.{sort_by}
use oracle_deepfield.Scoring.Engine.{Weekly}

-- A row of the candles table; its key is the pair, the interval in minutes and the open time.
pub record Bar (F : Type 0) : Type 0 where
  pub pair : Name
  pub interval : ℕ
  pub ts : ℕ
  pub o : F
  pub h : F
  pub l : F
  pub c : F
  pub v : F
  pub closed : Bool

pub record Key : Type 0 where
  pub pair : Name
  pub interval : ℕ
  pub ts : ℕ

abbrev pub same_key : Key → Key → Bool
same_key a b = name_eq a.pair b.pair && a.interval == b.interval && a.ts == b.ts

abbrev pub larger : Option ℕ → ℕ → Option ℕ
larger none t = some t
larger (some s) t = if ltb s t then some t else some s

module _ {F : Type 0} where
  abbrev pub key_of : Bar F → Key
  key_of b = record { pair = b.pair; interval = b.interval; ts = b.ts }

  -- `upsert_candle`: the row of the key is overwritten, or a new one is added.
  unfoldable pub upsert_candle : Bar F → List (Bar F) → List (Bar F)
  upsert_candle b [] = b ∷ []
  upsert_candle b (x ∷ xs) =
      if same_key (key_of x) (key_of b) then b ∷ xs else x ∷ upsert_candle b xs

  -- SELECT … WHERE pair=? AND interval=? AND ts=?
  abbrev pub find_bar : Key → List (Bar F) → Option (Bar F)
  find_bar k = find_of (λ x. same_key (key_of x) k)

  -- `flip_closed`: the rows changed, and the table.
  unfoldable pub flip_closed : Key → List (Bar F) → ℕ × List (Bar F)
  flip_closed k t = (
    count_of (λ x. same_key (key_of x) k && not x.closed) t,
    map (λ x. if same_key (key_of x) k && not x.closed then record x { closed = true } else x) t,
  )

  -- WHERE pair=? AND interval=?
  abbrev pub is_series : Name → ℕ → Bar F → Bool
  is_series pair interval x = name_eq x.pair pair && x.interval == interval

  unfoldable pub latest : Option ℕ → List (Bar F) → Option ℕ
  latest best [] = best
  latest best (x ∷ xs) = latest (larger best x.ts) xs

  -- `max_ts`
  unfoldable pub max_ts : Name → ℕ → List (Bar F) → Option ℕ
  unfolding latest
  max_ts pair interval t = latest none (keep (is_series pair interval) t)

  -- WHERE pair=? AND interval=? AND closed=1
  abbrev pub is_closed_series : Name → ℕ → Bar F → Bool
  is_closed_series pair interval x = is_series pair interval x && x.closed

  -- `max_closed_ts`
  unfoldable pub max_closed_ts : Name → ℕ → List (Bar F) → Option ℕ
  unfolding latest
  max_closed_ts pair interval t = latest none (keep (is_closed_series pair interval) t)

  -- `candle_count`
  unfoldable pub candle_count : Name → ℕ → List (Bar F) → ℕ
  candle_count pair interval t = count_of (is_series pair interval) t

  -- `get_forming`: the first row that is not closed
  unfoldable pub get_forming : Name → ℕ → List (Bar F) → Option (Bar F)
  get_forming pair interval t = find_of (λ x. is_series pair interval x && not x.closed) t

  -- WHERE pair=? AND interval=? AND closed=1 ORDER BY ts
  unfoldable pub closed_series : Name → ℕ → List (Bar F) → List (Bar F)
  unfolding sort_by
  closed_series pair interval t =
      sort_by (λ a b. leb a.ts b.ts) (keep (is_closed_series pair interval) t)

  -- `load_weekly_daily_closed`
  unfoldable pub load_weekly_daily_closed : Name → List (Bar F) → Weekly F × List F
  unfolding closed_series
  load_weekly_daily_closed symbol t =
      let w = closed_series symbol 10080 t in
      (
        record {
          wo = map (λ b. b.o) w;
          wh = map (λ b. b.h) w;
          wl = map (λ b. b.l) w;
          wc = map (λ b. b.c) w;
          wvol = map (λ b. b.v) w;
        },
        map (λ b. b.c) (closed_series symbol 1440 t),
      )
