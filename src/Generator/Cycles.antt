-- ===== src/Generator/Cycles.antt =====
-- internal/gen/ir.go: breakOptionalStructCycles.
mod Break
mod Graph
mod Finite
mod Steps
mod Ends
unfoldable pub use Break.*
pub use Graph.*
pub use Finite.*
pub use Steps.*
pub use Ends.*
