-- ===== src/Planning.antt =====
-- The review planner (domain/planning).
pub mod Models
pub mod Capacity
pub mod Planner
pub mod Ranges
pub mod Packed
pub mod Unsplit
pub mod Covered
pub mod Pieces
pub mod Parts
pub mod Plan
mod Tests
pub mod Returns
