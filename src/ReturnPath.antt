-- ===== src/ReturnPath.antt =====
-- src/sema/sema.cpp: the definite-return analysis of typed procedures.
pub mod Select
pub mod Graph
pub mod Build
pub mod Sweep
pub mod Exits
pub mod Correct
pub mod Gaps
