-- ===== src/Findings.antt =====
-- Findings out of the candidates of executions (domain/findings).
pub mod Models
pub mod Validation
pub mod Coverage
pub mod Processor
pub mod Settled
pub mod Order
pub mod Direct
pub mod Answers
pub mod Final
mod Tests
