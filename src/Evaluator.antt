-- ===== src/Evaluator.antt =====
-- packages/config-evaluator: which value a config has for a context.
pub mod Value
pub mod Compare
pub mod Pointer
pub mod Condition
pub mod Segment
pub mod Rollout
pub mod Types
pub mod Rule
pub mod Walk
pub mod Tests
