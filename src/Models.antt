-- ===== src/Models.antt =====
-- The data models that the other parts share (migration_validator/models).
pub mod Status
pub mod Value
pub mod Scope
pub mod Finding
pub mod JsonSafe
pub mod Snapshot
