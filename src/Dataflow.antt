-- ===== src/Dataflow.antt =====
-- src/core/dataflow: analyses over the instructions of a function. `State` has the result of
-- DataFlowResult.cpp, `Engine` the work list of DataFlowEngine.cpp with the iterators of `Iterator`,
-- `Analysis` the client of DataFlowAnalysis.cpp, and `Outcome` how a run ends.
pub mod Outcome
pub mod Iterator
pub mod State
pub mod Engine
pub mod Analysis
pub mod Settled
pub mod Flow
pub mod Locating
pub mod Blocks
pub mod Rounds
pub mod Invariant
pub mod Iteration
pub mod Fixpoint
pub mod Places
pub mod Start
pub mod Reachable
pub mod Forward
mod Tests
