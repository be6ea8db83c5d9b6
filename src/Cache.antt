-- ===== src/Cache.antt =====
-- python/src/app/infrastructure/cache and ports/cache.py
pub mod Client
pub mod Documented
pub mod InMemory
pub mod Redis
pub mod Keys
