-- ===== src/Plugin.antt =====
-- plugin: the process that herdr starts for one entry of a plugin.
pub mod Environment
pub mod Registry
pub mod Run
pub mod Exit
pub mod Registered
pub mod Binding
pub mod Paths
pub mod State
pub mod Atomic
pub mod Invocation
pub mod ReadBack
pub mod Clean
pub mod Below
