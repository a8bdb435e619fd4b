-- ===== src/Engines/Analytics.antt =====
-- Integer analytics of ml/src/retail_ml/engines/analytics.py.
pub mod Defs
pub mod Currencies
pub mod Costs
mod Tests
