-- ===== src/Lib.antt =====
-- NOELLE is a compilation layer over LLVM. This library models the parts of its core that carry
-- logic of their own, and proves them correct; LLVM itself is only met through interfaces.
--
-- * BitMatrix.antt and its children: src/core/basic_utilities/src/BitMatrix.cpp, a square Boolean
--   matrix and its transitive closure by a work list of rows. llvm::BitVector is the interface
--   BitVector.antt of its documented behaviour. Numbers wrap at 2^32 as in the source. A run of
--   the closure has (N * N + 1) * (N + 1) rounds, since each round that changes the matrix sets
--   one of N * N bits and queues at most N rows.
-- * Dg.antt and its children: the templates of src/core/dg/include/arcana/noelle/core, DGBase.hpp,
--   DGNode.hpp and DGEdge.hpp. Nodes and edges live on a heap from pointers, which are numbers,
--   to objects; a pointer to a deleted object is `none` there, and an operation that dereferences
--   it or a null pointer gives `none`. The two node maps hold null pointers as the source does.
--   The values of the graph are numbers, compared by identity.
-- * Loops.antt and its children: src/core/loop_forest, the trees of nested loops with their visits,
--   counts and searches. The closures that the source hands to a visit are functions on the
--   variables they capture. Levels and counts wrap at 2^32 and 2^64 as in the source.
-- * Dominators.antt and its children: src/core/dominators/src/DominatorForest.cpp and
--   DominatorNode.cpp, nodes on a heap with a parent and children. A walk to the roots has one
--   round for each level up to the highest, since levels fall on it; a search has as many rounds
--   as nodes stand below its start. The blocks of instructions and their order are parameters.
-- * Partition.antt and its children:
--   src/core/loop_sccdag_attributes/src/SCCDAGPartition.cpp, a dependence graph over sets of SCCs.
--   Sets are values of the graph of Dg.antt, with their SCCs on a heap. The searches for ancestors
--   and descendants have a round for each node and one more, since they queue each set once and
--   the start once more; isAncestor has no visited set, and its rounds are an argument.
-- * Pdg.antt and its children: src/core/pdg/src/PDG.cpp, the dependence graph over the values of a
--   program with its subgraphs and queries. Functions, loops and modules of LLVM are data: their
--   arguments and the instructions of their blocks. `describe` of Dg/Description.antt says what an
--   edge states without addresses, and compares edges of different graphs.
-- * Sccdag.antt and its children: src/core/sccdag, the graph of the strongly connected components.
--   An SCC of SCC.cpp is a graph of Dg.antt on a heap, and a value of the graph of SCCDAG.cpp, whose
--   order is kept in the matrix of BitMatrix.antt. The iterator of LLVM over the components from a
--   node is a parameter. The search of hasCycle has a round for each node and one more, since it
--   queues each node at most once.
-- * Hot.antt and its children: src/core/hotprofiler, the counters of blocks, functions and the module
--   that the profile of LLVM gives. The profile and the shape of the program are data. What the
--   source computes through double, as the totals over callees, is left out.
-- * Dataflow.antt and its children: src/core/dataflow, the work list over the blocks of a function and
--   the reachability analysis on it. The callbacks of an analysis are functions that return the set
--   they write, and what LLVM tells of a function is data, as are the iterators over a block. A run
--   ends in a result or in a fault that says where it stopped (Dataflow/Outcome.antt). The rounds of
--   the work list are an argument; `rounds` of Dataflow/Reachable.antt are enough, since a block is
--   queued again only when a set of another one grew. The loop along a block has a round for each
--   instruction.
--
-- Sets are lists without an order that the statements read by membership only. Prelude.antt has
-- the shared helpers. Not modelled: printing, LLVM IR and its transformations, and the passes
-- that only collect facts from LLVM.
pub mod Prelude
pub mod BitVector
pub mod BitMatrix
pub mod Dg
pub mod Pdg
pub mod Loops
pub mod Dominators
pub mod Hot
pub mod Partition
pub mod Sccdag
pub mod Dataflow
