-- ===== src/Hot.antt =====
-- src/core/hotprofiler: how often blocks and functions were executed, as LLVM's profile tells. `Counters`
-- is the code, and `Profile` what the analysis leaves in the maps.
pub mod Counters
pub mod Profile
pub mod Analysis
mod Tests
