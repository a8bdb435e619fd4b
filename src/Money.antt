-- ===== src/Money.antt =====
-- Integer minor-unit money: contracts/python/src/retail_contracts/money.py.
pub mod Defs
pub mod Fx
pub mod Rounding
pub mod Conversion
pub mod Shares
pub mod Allocation
mod Tests
