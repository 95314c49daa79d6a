-- ===== src/Transfer.antt =====
-- Copies, moves, imports and exports of objects: the modal's state and handlers
-- (src/app/handlers/transfer.rs, src/app/types.rs) and the work on one item
-- (src/app/transfer_ops.rs).
pub mod Types
pub mod Modal
pub mod Starting
pub mod Steps
pub mod Storage
pub mod Work
pub mod Safety
pub mod Moves
pub mod Start
mod Memory
mod Tests
pub mod Reach
pub mod Turns
pub mod Answers
pub mod Follows
pub mod Left
pub mod Messages
pub mod Cautious
pub mod Careful
pub mod Prepare
