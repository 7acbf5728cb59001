-- ===== src/Auth.antt =====
-- Registration and the check of credentials (src/bond_accounting/auth).
pub mod Password
pub mod Users
pub mod Credentials
