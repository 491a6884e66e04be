-- ===== src/Session.antt =====
-- herdr/session.go and herdr/session_bootstrap.go: reading events, reconnecting and closing.
pub mod Errors
pub mod Backoff
pub mod Machine
pub mod Ownership
pub mod Recover
pub mod Mirror
pub mod Opening
pub mod Stream
