-- ===== src/Keeper.antt =====
-- internal/keeper/keeper.go.
pub mod Types
pub mod Submit
pub mod Planner
pub mod Committer
pub mod Mount
pub mod Serve
pub mod Flow
pub mod Queue
pub mod Durability
pub mod Statistics
