-- ===== src/Generator.antt =====
-- internal/gen: the generator that writes package herdr from herdr's API schema.
pub mod Naming
pub mod Schema
pub mod Reach
pub mod Ir
pub mod Cycles
pub mod Resolve
pub mod Fields
pub mod Canonical
pub mod Builder
pub mod Types
pub mod Methods
pub mod Build
pub mod Outcomes
pub mod Sound
