-- ===== src/Runs.antt =====
-- The manifest of a run and the pairing of its captures (migration_validator/runs).
pub mod Manifest
pub mod Pairing
