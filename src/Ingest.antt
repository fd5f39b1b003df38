-- ===== src/Ingest.antt =====
-- The ingestion of pkg/tools/ingest.
pub mod Purl
pub mod Ready
pub mod Attached
pub mod Visited
pub mod Drawn
pub mod Sbom
pub mod Vuln
pub mod Scorecard
mod Tests
