-- ===== src/Partition.antt =====
-- src/core/loop_sccdag_attributes/src/SCCDAGPartition.cpp: a dependence graph over sets of SCCs. `Sets`
-- has the partition and its merges, `Partitioner` the questions about ancestors and descendants.
pub mod Sets
pub mod Partitioner
pub mod Collect
pub mod Reach
pub mod Chains
pub mod Family
mod Tests
