-- ===== src/SessionCache.antt =====
-- herdr/session_cache.go, by its parts: the state, the agent events, the focus events and `apply`.
pub mod State
pub mod Agents
pub mod Focus
pub mod Apply
pub mod Consistent
pub mod Invariant
pub mod Twice
pub mod Replay
pub mod Closing
pub mod Shared
pub mod Agreement
