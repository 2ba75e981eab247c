-- ===== src/Trace.antt =====
-- The append-only log of what happened to a task (domain/trace).
pub mod Models
pub mod Service
pub mod Links
pub mod Numbered
pub mod Sound
pub mod Runs
pub mod Again
mod Tests
