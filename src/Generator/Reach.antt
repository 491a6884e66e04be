-- ===== src/Generator/Reach.antt =====
-- internal/gen/ir.go: whether a struct reaches another one through its fields.
mod Search
mod Closed
unfoldable pub use Search.*
pub use Closed.*
mod Fuel
pub use Fuel.*
