-- ===== src/RustScan/Views.antt =====
-- internal/cmd/herdrsource/rust.go: the two views of a file, its production code and its tests. Each
-- is a copy of the text in which the other one is blanked out.
mod Ranges
unfoldable pub use Ranges.*
mod Spans
unfoldable pub use Spans.*
mod Lines
unfoldable pub use Lines.*
