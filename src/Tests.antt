-- ===== src/Tests.antt =====
-- Concrete states, and the theorems at them.
mod Samples
mod Mirror
mod Loading
mod Plugins
mod Sessions
mod Paths
mod Checks
mod Schemas
mod Scans
mod Graphs
mod Unions
mod Calls
mod Files
