-- ===== src/Pdg.antt =====
-- src/core/pdg: the dependence graph over the values of a program. `Build` has the constructors of
-- PDG.cpp, `Subgraph` the copies of parts of a graph, `Query` the questions about dependences.
pub mod Build
pub mod Subgraph
pub mod Query
pub mod Chosen
pub mod Copies
pub mod Copying
pub mod Values
pub mod Extraction
pub mod Clone
mod Tests
