-- ===== src/Routers.antt =====
-- python/src/app/routers
pub mod Auth
pub mod EmailLinks
pub mod Features
pub mod Asking
pub mod Permissions
pub mod Tenants
