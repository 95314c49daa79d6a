-- ===== src/Sync/Execution.antt =====
-- The execution of a run plan (src/app/handlers/sync.rs): the phases, the tasks, the dispatcher.
pub mod Phase
pub mod Tasks
pub mod Dispatch
pub mod Batches
pub mod Rule
pub mod Messages
pub mod Order
pub mod Once
pub mod Progress
pub mod Termination
pub mod Early
