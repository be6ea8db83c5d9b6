-- ===== src/Tenants.antt =====
-- Tenants: their repository, and the service that moves them through their life.
pub mod Cached
pub mod Caching
pub mod Repository
pub mod Service
