-- ===== src/Task.antt =====
-- The life of a review task (code_review_agent/domain/task): control states and phases, leases with
-- fencing tokens, checkpoints and result snapshots.
pub mod Models
pub mod StateMachine
pub mod State
pub mod Leases
pub mod Service
pub mod History
pub mod Forward
pub mod Overtaken
pub mod Calls
pub mod Fencing
mod Tests
