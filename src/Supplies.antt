-- ===== src/Supplies.antt =====
-- The supplies module, lib/suppliesData/src/supplies_module.c: the stock of food and medicine, kept
-- in the database under two keys.
pub mod Stock
pub mod Load
pub mod Store
pub mod Update
pub mod Init
pub mod Arithmetic
pub mod Bounds
pub mod RoundTrip
pub mod Transaction
pub mod Initial
