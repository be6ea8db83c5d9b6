-- ===== src/Users.antt =====
-- Users: services/user_service.py with its repositories, and utils/password.py.
pub mod Password
pub mod Repository
pub mod Service
pub mod Caching
