-- ===== src/Candles/Tests.antt =====
-- The theorems on the candle table applied to two days of one pair.
use oracle_deepfield.Base.{
  ℕ, ◌≡◌, refl, Bool, true, false, Option, none, some, List, [], ◌∷◌, All, arith,
}
use oracle_deepfield.Base.Names.{Name, codes}
use oracle_deepfield.Num.{of_ℕ}
use oracle_deepfield.Num.Fixed.{Fixed, fixed}
use oracle_deepfield.Candles.Table.{Bar, key_of, upsert_candle, load_weekly_daily_closed}
use oracle_deepfield.Candles.Heal.{RestRow, Venue, gap_heal}
use oracle_deepfield.Candles.Series.{NoneClosed, load_weekly_daily_closed-upsert_candle}
use oracle_deepfield.Candles.Repairs.{IsLoud, gap_heal-IsLoud}
use oracle_deepfield.Candles.Convergence.{arrivals, DistinctKeys, IsSolid}

abbrev row : ℕ → ℕ → RestRow Fixed
row ts close = record { ts = ts; o = of_ℕ 5; h = of_ℕ 9; l = of_ℕ 4; c = of_ℕ close; v = of_ℕ 7 }

abbrev day_bar : ℕ → ℕ → Bool → Bar Fixed
day_bar ts close closed = record {
  pair = codes "BTC/USD";
  interval = 1440;
  ts = ts;
  o = of_ℕ 5;
  h = of_ℕ 9;
  l = of_ℕ 4;
  c = of_ℕ close;
  v = of_ℕ 7;
  closed = closed;
}

abbrev venue : Venue Fixed
venue = record {
  rest_names = (codes "BTC/USD", codes "XBTUSD") ∷ [];
  fetch_ohlc = λ p i. row 0 6 ∷ row 86400 8 ∷ [];
  now = λ p i. 100000;
}

abbrev stored : List (Bar Fixed)
stored = day_bar 0 5 true ∷ []

abbrev forming : List (Bar Fixed)
forming = day_bar 0 5 true ∷ day_bar 86400 8 false ∷ []

abbrev pairs : List Name
pairs = codes "BTC/USD" ∷ []

abbrev intervals : List ℕ
intervals = 1440 ∷ []

repairs_the_changed_day :
    gap_heal venue 10 pairs intervals stored ≡ (day_bar 0 6 true ∷ day_bar 86400 8 false ∷ [], 1)
unfolding gap_heal oracle_deepfield.Base.Names.name_eq
repairs_the_changed_day = refl

gap_heal-IsLoud_example : IsLoud stored (gap_heal venue 10 pairs intervals stored)
gap_heal-IsLoud_example = gap_heal-IsLoud venue 10 pairs intervals stored

two_days-DistinctKeys : DistinctKeys (arrivals venue 10 pairs intervals)
unfolding oracle_deepfield.Base.Names.name_eq oracle_deepfield.Candles.Heal.bar_of
two_days-DistinctKeys = ((refl, tt), (tt, tt))

two_days-IsSolid : All IsSolid (arrivals venue 10 pairs intervals)
unfolding oracle_deepfield.Candles.Heal.bar_of
two_days-IsSolid = (refl, (refl, tt))

stored-NoneClosed : NoneClosed (key_of (day_bar 86400 8 false)) stored
unfolding oracle_deepfield.Base.Names.name_eq
stored-NoneClosed = λ x e. ground arith

load_weekly_daily_closed-upsert_candle_example :
    load_weekly_daily_closed (codes "BTC/USD") (upsert_candle (day_bar 86400 8 false) stored)
    ≡ load_weekly_daily_closed (codes "BTC/USD") stored
load_weekly_daily_closed-upsert_candle_example =
    load_weekly_daily_closed-upsert_candle (codes "BTC/USD") (day_bar 86400 8 false) stored refl
      stored-NoneClosed
