-- ===== src/Manifest.antt =====
-- plugin/manifest: the manifest of a plugin, its validation, and the events a hook may name.
pub mod Types
pub mod Hooks
pub mod Validate
pub mod Fits
pub mod Accept
pub mod Size
