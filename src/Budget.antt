-- ===== src/Budget.antt =====
-- The token budget of a review (code_review_agent/domain/budget): an append-only ledger, its
-- projection to a summary, and the service that reserves, settles, freezes and unfreezes.
pub mod Models
pub mod Ledger
pub mod State
pub mod Service
pub mod Settlement
pub mod Authorization
pub mod Steps
pub mod Sound
pub mod Runs
pub mod Idle
pub mod Ended
pub mod Once
pub mod Sequences
mod Tests
