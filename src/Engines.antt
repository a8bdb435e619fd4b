-- ===== src/Engines.antt =====
-- The inventory engines: ml/src/retail_ml/engines.
pub mod Acceptance
pub mod Allocation
pub mod Analytics
pub mod Clock
pub mod Cohorts
pub mod Intervals
pub mod Replay
pub mod Resolution
pub mod Transfers
