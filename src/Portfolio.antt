-- ===== src/Portfolio.antt =====
-- The portfolio module (src/bond_accounting/portfolio): transactions, netting and the service.
pub mod Transaction
pub mod Dto
pub mod Store
pub mod Result
pub mod Action
pub mod Queries
pub mod Bodies
pub mod Service
pub mod Counting
pub mod Held
pub mod Invariant
pub mod Commands
pub mod Position
pub mod Netting
