-- ===== src/Engines/Cohorts.antt =====
-- Cohorts of replay keys: their assignment, of ml/src/retail_ml/engines/cohorts.py, and the split by
-- it, of ml/src/retail_ml/engines/replay.py.
pub mod Defs
pub mod Partition
pub mod Assign
mod Tests
