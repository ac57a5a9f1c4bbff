-- ===== src/Defense.antt =====
-- The liquidation-buffer telemetry of deepfield/defense.py: the buffers, the tiers, the alert state
-- machine, the stress figures, the basket index and the trim trigger. An input that `float` refuses
-- is `none`.
pub mod Buffers
pub mod Basket
pub mod Moves
pub mod Escalation
pub mod Stress
mod Tests
