-- ===== src/Query.antt =====
-- internal/kt/proof/proof.go and internal/proof/proof.go: which nodes of which trees prove a range.
pub mod Geometry
pub mod Nodes
pub mod Ranges
pub mod Interpolate
pub mod Complete
pub mod Dependencies
pub mod Queue
pub mod Versions
mod Runs
