-- ===== src/Collaboration.antt =====
-- internal/core/collaboration: workspaces that agents share.
pub mod Types
pub mod Workspace
pub mod Paging
pub mod Tasks
pub mod Capabilities
pub mod Context
pub mod Dependencies
pub mod Sessions
pub mod Resolution
