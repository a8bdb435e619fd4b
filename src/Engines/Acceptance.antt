-- ===== src/Engines/Acceptance.antt =====
-- The acceptance gates of ml/src/retail_ml/engines/replay.py.
pub mod Defs
pub mod Oracle
pub mod Verdict
mod Tests
