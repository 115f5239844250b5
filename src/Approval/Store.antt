-- ===== src/Approval/Store.antt =====
-- The database of the approval engine, transactions on it, and the statements of its repository.
pub mod Tables
pub mod Tx
pub mod Repository
pub mod Signing
pub mod Scans
