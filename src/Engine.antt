-- ===== src/Engine.antt =====
-- The evaluation of the scopes of a snapshot (migration_validator/engine.py).
pub mod Order
pub mod Ports
pub mod Layers
pub mod Align
pub mod Plan
pub mod Run
pub mod Unassigned
pub mod Evaluate
