-- ===== src/Analytics.antt =====
-- `AnalyticsService` and its helpers (src/bond_accounting/analytics).
pub mod Dto
pub mod Grid
pub mod Flows
pub mod Positions
pub mod Sections
pub mod Summary
pub mod Service
