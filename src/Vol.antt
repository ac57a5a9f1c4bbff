-- ===== src/Vol.antt =====
-- The volatility-scaled distances of deepfield/vol.py.
pub mod Ruling
pub mod Table
pub mod Bounds
mod Tests
