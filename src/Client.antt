-- ===== src/Client.antt =====
-- herdr/client.go, herdr/dial.go and herdr/subscribe.go: requests, each on a connection of its own.
pub mod Connection
pub mod Wire
pub mod Exchange
pub mod Release
pub mod Ownership
pub mod Answers
pub mod Failing
