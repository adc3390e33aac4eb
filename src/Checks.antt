-- ===== src/Checks.antt =====
-- The framework of the checks and the checks on top of it (migration_validator/checks).
pub mod Config
pub mod Framework
pub mod Deactivation
pub mod Baseline
pub mod Bgp
pub mod Bfd
pub mod Ifaces
