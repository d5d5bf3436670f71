-- ===== src/Analyze.antt =====
-- The statistics and the report of scripts/analyze.py.
pub mod Floats
pub mod Fixed
pub mod Rows
pub mod Groups
pub mod Distributions
pub mod Resampling
pub mod Effects
pub mod Contrast
pub mod Gates
pub mod Placement
pub mod Frequency
pub mod Report
pub mod Summary
pub mod RunFiles
pub mod Sanitize
mod Tests
mod OutputTests
