-- ===== src/Scoring.antt =====
-- The scoring core: deepfield/indicators.py, signals.py, profiles.py and engine.py.
pub mod Indicators
pub mod Warmup
pub mod Signals
pub mod Strictness
pub mod Divergence
pub mod Gaps
pub mod Engine
pub mod Regime
pub mod Cards
pub mod Shown
mod Tests
