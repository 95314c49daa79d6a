-- ===== src/Sync.antt =====
-- The sync engine: planning (`src/app/sync_ops.rs`) and execution (`src/app/handlers/sync.rs`).
pub mod Types
pub mod Compare
pub mod Plan
pub mod State
pub mod RunPlan
pub mod Execution
pub mod Filters
pub mod Work
pub mod Screen
mod Tests
