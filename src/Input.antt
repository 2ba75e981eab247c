-- ===== src/Input.antt =====
-- Normalisation of a unified diff (domain/input).
pub mod Models
pub mod Utf8
pub mod Quoted
pub mod Quoting
pub mod Lines
pub mod Ranges
pub mod Hunks
pub mod Valid
pub mod Loop
pub mod Offsets
pub mod Slices
pub mod RoundTrip
pub mod Paths
pub mod Facts
pub mod Headers
pub mod Checks
pub mod Files
pub mod Diff
pub mod Kept
pub mod Sound
pub mod Whole
pub mod Ends
mod Tests
