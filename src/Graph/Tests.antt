-- ===== src/Graph/Tests.antt =====
-- The tests of pkg/graph: runs of the operations, and theorems at concrete inputs.
pub mod Build
mod Caching
mod Cycles
pub mod Data
mod Parser
mod Query
mod Script
