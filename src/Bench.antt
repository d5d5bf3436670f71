-- ===== src/Bench.antt =====
-- scripts/bench.py.
pub mod CpuList
pub mod World
pub mod Output
pub mod Epp
pub mod Cooling
pub mod Session
pub mod Partition
pub mod Experiments
pub mod Ab
pub mod Driver
pub mod Restore
pub mod Protocol
pub mod Rules
pub mod Progress
mod Tests
