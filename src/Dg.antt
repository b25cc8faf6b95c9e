-- ===== src/Dg.antt =====
-- src/core/dg: the dependence graph template. `Store` has the records and their lookups, `Edge` and
-- `Node` the methods of DGEdge.hpp and DGNode.hpp, `Build`, `Remove` and `Query` those of DGBase.hpp.
pub mod Store
pub mod Edge
pub mod Node
pub mod Build
pub mod Remove
pub mod Query
pub mod Invariant
pub mod Adding
pub mod Linking
pub mod Joining
pub mod Unlinking
pub mod Detaching
pub mod Removal
pub mod Removed
pub mod Between
pub mod Values
pub mod Chain
pub mod Ends
pub mod Description
pub mod Copying
pub mod Keeping
pub mod Sample
mod Tests
