-- ===== src/Quality.antt =====
-- The quality policy of ml/src/retail_ml/policies/quality_v2.py.

pub mod Defs
pub mod Publication
pub mod Ranks
pub mod Display
mod Tests
