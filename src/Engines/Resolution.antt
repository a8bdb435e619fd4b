-- ===== src/Engines/Resolution.antt =====
-- Lane and supply-term resolution of ml/src/retail_ml/engines/resolution.py.
pub mod Defs
pub mod Lanes
pub mod Terms
mod Tests
