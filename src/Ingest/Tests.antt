-- ===== src/Ingest/Tests.antt =====
-- The theorems on the closes applied to a Thursday border of one pair, whose daily and weekly bars
-- close at one instant.
use oracle_deepfield.Base.{ℕ, ◌≤◌, ◌≡◌, refl, true, false, none, List, [], ◌∷◌, any_of, count_of}
use oracle_deepfield.Base.Names.{Name, codes, name_eq}
use oracle_deepfield.Num.{of_ℕ}
use oracle_deepfield.Num.Fixed.{Fixed, fixed}
use oracle_deepfield.Candles.Table.{Bar, Key, find_bar}
use oracle_deepfield.Ingest.{
  Setup, Feed, handle_candle_closed, apply_rest_confirm, find_overdue, recomputes, sibling,
}
use oracle_deepfield.Ingest.Closes.{
  is_fire, is_close, is_shut, fired_closes, fired_closes_once, fired_close_complete,
}

abbrev ada : Name
ada = codes "ADA/USD"

abbrev setup : Setup
setup = record {
  signal_intervals = 1440 ∷ 10080 ∷ [];
  rest_confirm_defer_secs = 1800;
  close_grace_secs = 5;
  btc_symbol = codes "BTC/USD";
  pairs = (ada, codes "ADAUSD") ∷ [];
}

abbrev open_bar : ℕ → ℕ → Bar Fixed
open_bar interval ts = record {
  pair = ada;
  interval = interval;
  ts = ts;
  o = of_ℕ 5;
  h = of_ℕ 9;
  l = of_ℕ 4;
  c = of_ℕ 6;
  v = of_ℕ 7;
  closed = false;
}

-- The last day of the first week, and the week.
abbrev border : Feed Fixed
border = record {
  last_fired = [];
  rest_defer = [];
  provisional = ada ∷ [];
  daily_begin = none;
  weekly_begin = none;
  bars = open_bar 1440 518400 ∷ open_bar 10080 0 ∷ [];
}

abbrev day_close : Key
day_close = record { pair = ada; interval = 1440; ts = 518400 }

abbrev week_close : Key
week_close = record { pair = ada; interval = 10080; ts = 0 }

abbrev closes : List Key
closes = day_close ∷ week_close ∷ day_close ∷ []

one_fire_at_the_border : fired_closes setup closes border ≡ (ada, 604800) ∷ []
unfolding fired_closes name_eq
one_fire_at_the_border = refl

fired_closes_once_example : count_of (is_close ada 604800) (fired_closes setup closes border) ≤ 1
fired_closes_once_example = fired_closes_once setup closes border ada 604800

day_close_fires : any_of is_fire (handle_candle_closed setup day_close border).1 ≡ true
unfolding handle_candle_closed name_eq
day_close_fires = refl

fired_close_complete_example :
    ((handle_candle_closed setup day_close border).1
      ≡ recomputes setup day_close true (handle_candle_closed setup day_close border).0.bars)
    × (is_shut
          (find_bar (sibling day_close 10080) (handle_candle_closed setup day_close border).0.bars)
        ≡ true)
fired_close_complete_example =
    fired_close_complete setup day_close border 10080 day_close_fires refl refl

-- A day that nobody traded is overdue, a failed confirm defers it, and the ceiling closes it.
silent_day_is_overdue :
    find_overdue setup 604805 border.bars
    ≡ (day_close, codes "ADAUSD") ∷ (week_close, codes "ADAUSD") ∷ []
unfolding find_overdue name_eq
silent_day_is_overdue = refl

failed_confirm_defers :
    apply_rest_confirm setup day_close 604810 [] border
    ≡ (record border { rest_defer = (day_close, 604810) ∷ [] }, [])
unfolding apply_rest_confirm name_eq
failed_confirm_defers = refl

ceiling_closes :
    any_of is_fire
      (apply_rest_confirm setup day_close 606610 []
        (record border { rest_defer = (day_close, 604810) ∷ [] })).1
    ≡ true
unfolding apply_rest_confirm name_eq
ceiling_closes = refl
