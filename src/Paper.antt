-- ===== src/Paper.antt =====
-- The simulated Kraken private API of paper mode, deepfield/paper_broker.py.
pub mod Types
pub mod Book
pub mod Settle
pub mod Rollover
pub mod Placement
pub mod Views
pub mod Exchange
pub mod Audit
mod Cases
pub mod Accounting
pub mod Pricing
pub mod Lots
pub mod Sells
pub mod Acceptance
pub mod Cancels
mod Rows
pub mod Lifecycle
pub mod Completion
pub mod Runs
mod Tests
