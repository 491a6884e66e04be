-- ===== src/Generator/Sound.antt =====
-- internal/gen: what Build returns is sound.
pub mod Unique
pub mod Sorted
pub mod Wrappers
pub mod Whole
pub mod Unions
pub mod Structs
pub mod Definitions
