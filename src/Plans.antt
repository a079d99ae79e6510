-- ===== src/Plans.antt =====
-- src/core/plan-validation.ts: plans and patches as a model writes them, and their validation.
pub mod Json
pub mod Names
pub mod Shape
pub mod Codec
pub mod Nulls
pub mod Graph
pub mod Semantics
pub mod Validation
pub mod Patches
mod Tests
