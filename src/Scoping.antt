-- ===== src/Scoping.antt =====
-- Which service of the subject is which service of the baseline (migration_validator/scoping).
pub mod Mapping
pub mod Matcher
pub mod Linker
