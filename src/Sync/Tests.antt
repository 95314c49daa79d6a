-- ===== src/Sync/Tests.antt =====
-- Runs of the sync definitions on small inputs: tests, and an application of each main theorem.
pub mod Data
mod Plan
mod Run
mod Screen
mod Work
mod Filters
