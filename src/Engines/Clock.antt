-- ===== src/Engines/Clock.antt =====
-- The ISO-Monday clock of ml/src/retail_ml/engines/clock.py.
pub mod Defs
pub mod Weeks
mod Tests
