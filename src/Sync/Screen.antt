-- ===== src/Sync/Screen.antt =====
-- The sync screen: its settings, planning, and the start of a run (src/app/handlers/sync.rs).
pub mod Settings
pub mod Validation
pub mod Planning
pub mod Running
pub mod Guards
pub mod Limits
pub mod Stale
