-- ===== src/Loops.antt =====
-- src/core/loop_forest: the trees of nested loops. `Tree` has the operations of LoopTree.cpp, `Forest`
-- those of LoopForest.cpp that work on whole trees; the others prove what the operations do.
pub mod Tree
pub mod Forest
pub mod Visit
pub mod Count
pub mod Nested
pub mod Deepest
pub mod Innermost
pub mod Outermost
mod Tests
