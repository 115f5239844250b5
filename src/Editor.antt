-- ===== src/Editor.antt =====
-- The document editor (internal/modules/documents_v2): its tables, its repository and its service.
pub mod Tables
pub mod Documents
pub mod Sessions
pub mod Uploads
pub mod Checkpoints
pub mod Comments
pub mod System
pub mod Effects
pub mod Invariant
pub mod Restores
pub mod Commits
pub mod History
pub mod Leases
pub mod Service
pub mod Tests
