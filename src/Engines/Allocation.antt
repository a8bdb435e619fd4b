-- ===== src/Engines/Allocation.antt =====
-- `allocate_channels` of ml/src/retail_ml/engines/optimizers.py: one node's pool of available
-- units over the demand rows of its channels.
pub mod Defs
pub mod Bounds
pub mod Conservation
pub mod Order
pub mod Priority
mod Tests
