-- ===== src/Executor.antt =====
-- deepfield/executor.py: the gates of an entry, its sizing and placement, and what becomes of a
-- resting bid.
pub mod Ledger
pub mod Rails
pub mod Sizing
pub mod Bucket
pub mod Gates
pub mod Venue
pub mod Entry
pub mod Fills
pub mod TakeProfit
pub mod Trim
pub mod Rung
pub mod Chains
mod Samples
mod Lives
mod Tests
