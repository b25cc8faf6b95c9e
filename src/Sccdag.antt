-- ===== src/Sccdag.antt =====
-- src/core/sccdag: the graph of the strongly connected components of a dependence graph. `Scc` is
-- SCC.cpp, and `State`, `Marks`, `Order` and `Build` are the parts of SCCDAG.cpp.
pub mod Scc
pub mod State
pub mod Marks
pub mod Order
pub mod Build
pub mod Owners
pub mod Stale
pub mod Numbering
pub mod Reported
pub mod Reachability
pub mod Before
mod Tests
