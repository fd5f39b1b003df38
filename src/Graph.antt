-- ===== src/Graph.antt =====
-- pkg/graph: the package's types, and the modules that model its files.
pub mod Node
pub mod Storage
pub mod Mock
pub mod Encode
pub mod Build
pub mod Query
pub mod BindMap
pub mod Cycles
pub mod Parser
pub mod Caching
pub mod Tests
