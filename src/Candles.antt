-- ===== src/Candles.antt =====
-- The candle table of deepfield/store.py and its repair in deepfield/reconciler.py.
pub mod Table
pub mod Heal
pub mod Series
pub mod Repairs
pub mod Convergence
mod Tests
