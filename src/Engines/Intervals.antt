-- ===== src/Engines/Intervals.antt =====
-- The guard on forecast intervals of ml/src/retail_ml/engines/interval_guard.py.
pub mod Defs
pub mod Entries
pub mod Ledger
pub mod Summary
mod Tests
