-- ===== src/Engines/Replay.antt =====
-- The weekly inventory replay of ml/src/retail_ml/engines/replay.py.
pub mod Defs
pub mod Loop
pub mod Flow
pub mod Stock
pub mod Market
pub mod Physical
mod Tests
