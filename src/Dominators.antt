-- ===== src/Dominators.antt =====
-- src/core/dominators: forests of dominator nodes. `Forest` has the nodes and the searches over them,
-- `Clone` the constructors that copy nodes, `Query` the operations on blocks and instructions.
pub mod Forest
pub mod Clone
pub mod Query
pub mod Invariant
pub mod Ancestors
pub mod Search
pub mod Nearest
mod Tests
