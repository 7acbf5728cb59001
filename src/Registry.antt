-- ===== src/Registry.antt =====
-- The services that keep brokers, broker accounts, bonds and account operations
-- (src/bond_accounting/brokers, bonds and account_operations).
pub mod Table
pub mod Rows
pub mod Payloads
pub mod Action
pub mod Brokers
pub mod Accounts
pub mod Bonds
pub mod Operations
pub mod Linked
pub mod Listings
pub mod Calls
