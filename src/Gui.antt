-- ===== src/Gui.antt =====
-- Who may do what in the GUI (migration_validator/gui, migration_validator/users.py).
pub mod Users
pub mod Sessions
pub mod Throttle
pub mod Authz
