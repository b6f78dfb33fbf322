-- ===== src/Executor.antt =====
-- executor/executor.go: the evaluation of expressions on rows, and the rows of a SELECT.
pub mod Like
pub mod Evaluate
pub mod Truth
pub mod Rows
pub mod Sorted
pub mod Distinct
mod Runs
