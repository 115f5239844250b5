-- ===== src/Approval.antt =====
-- The approval engine of documents (internal/modules/documents_v2/approval).
pub mod State
pub mod Route
pub mod Signoff
pub mod Instance
pub mod Quorum
pub mod Drift
pub mod Payload
pub mod Store
pub mod Service
mod Tests
