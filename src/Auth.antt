-- ===== src/Auth.antt =====
-- Signing in: deps/injection.py and services/auth_service.py.
pub mod CurrentUser
pub mod Issue
