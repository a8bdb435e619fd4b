-- ===== src/Datagen/Echelon.antt =====
-- The store echelon of datagen/src/retail_datagen/store_inventory.py.

pub mod Setup
pub mod Rows
pub mod Flow
pub mod Review
pub mod Publish
pub mod Cells
pub mod State
pub mod Receipts
pub mod Sales
pub mod Expiry
pub mod Orders
pub mod Dispatch
pub mod Configured
pub mod Reviews
pub mod Openings
pub mod Shown
pub mod Snapshots
pub mod Days
pub mod Runs
pub mod Delivery
mod Tests
