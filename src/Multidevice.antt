-- ===== src/Multidevice.antt =====
-- internal/core/multidevice: devices that share a workspace.
pub mod RateLimit
pub mod Causality
pub mod Presence
pub mod Devices
pub mod Access
pub mod Conflicts
pub mod Events
pub mod Sync
