-- ===== src/RustScan.antt =====
-- internal/cmd/herdrsource/rust.go: the scanner that reads herdr's Rust sources.
pub mod Bytes
pub mod Find
pub mod Skip
pub mod Advance
pub mod Walk
pub mod Balanced
pub mod Arms
pub mod Bodies
pub mod Views
