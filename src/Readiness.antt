-- ===== src/Readiness.antt =====
-- The readiness evaluator of ingestion/src/retail_ingestion/readiness/evaluator.py.

pub mod Defs
pub mod Zero
pub mod Capabilities
pub mod Report
pub mod Verdicts
pub mod Grades
pub mod Eligible
pub mod Proceed
pub mod Decisions
mod Tests
