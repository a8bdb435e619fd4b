-- ===== src/Selection.antt =====
-- The publication selections of ingestion/src/retail_ingestion/readiness/selection.py.
pub mod Defs
pub mod Lifecycle
pub mod Runs
pub mod Scopes
pub mod Resolve
pub mod History
mod Tests
