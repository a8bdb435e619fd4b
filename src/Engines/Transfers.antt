-- ===== src/Engines/Transfers.antt =====
-- `recommend_transfers` of ml/src/retail_ml/engines/optimizers.py: stock moved between locations,
-- greedily by benefit.
pub mod Defs
pub mod Limits
pub mod Rows
mod Tests
