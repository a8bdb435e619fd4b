-- ===== src/Datagen.antt =====
-- The data generator, datagen/src/retail_datagen.
pub mod Echelon
