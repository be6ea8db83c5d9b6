-- ===== src/Tests.antt =====
-- Concrete runs of the program, at which the theorems apply.
pub mod World
pub mod Accounts
pub mod Requests
pub mod Routers
pub mod Links
pub mod Stored
pub mod Roles
pub mod OneTenant
pub mod Tenants
pub mod TenantRoutes
pub mod Identity
pub mod Caches
pub mod Flags
pub mod Dispatch
pub mod FlagRoutes
