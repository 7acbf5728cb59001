-- ===== src/Yield.antt =====
-- The yield_calc module (src/bond_accounting/yield_calc).
pub mod Dates
pub mod Schedule
pub mod Accrued
pub mod Ytm
