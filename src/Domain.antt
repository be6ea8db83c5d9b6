-- ===== src/Domain.antt =====
-- python/src/app/domain
pub mod User
pub mod Tenant
pub mod Audit
pub mod Auth
pub mod Feature
