-- ===== src/Access.antt =====
-- deps/auth.py and the access check of routers/users.py.
pub mod RateLimit
pub mod Permissions
pub mod Hierarchy
