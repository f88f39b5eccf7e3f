-- ===== src/Auth.antt =====
-- Who may call: app/shared/security.py, app/shared/dependencies.py.
pub mod Roles
pub mod Sessions
pub mod Api
