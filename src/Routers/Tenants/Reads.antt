-- ===== src/Routers/Tenants/Reads.antt =====
-- Who reads which tenant.
use clean_architecture_saas.Prelude.{ℕ, String, ◌≡◌, ◌⊎◌, Bool, true, Option, some, [], ◌∷◌}
use clean_architecture_saas.Python.Exec.{Exc, Result, Exec}
use clean_architecture_saas.Python.Int.{pos, eq_ℤ, ℤ}
use clean_architecture_saas.Domain.Audit.{AuditRepository}
use clean_architecture_saas.Domain.Tenant.{Tenant}
use clean_architecture_saas.Access.Permissions.{member, require_any_permission}
use clean_architecture_saas.Cache.Client.{CacheClient}
use clean_architecture_saas.Tenants.Repository.{TenantRepository}
use clean_architecture_saas.Users.Repository.{UserRepository}
use clean_architecture_saas.Routers.Asking.{Asking}
use clean_architecture_saas.Routers.Tenants.{own_tenant, TenantResponse, found, get_tenant}

module _ {S : Type 0} (tenants : TenantRepository S) (users : UserRepository S)
    (audit : Option (AuditRepository S)) (cache : CacheClient S) (is_duplicate : Exc → Bool)
    (str : ℕ → String) (now : ℕ) where
  abbrev answer : ℕ → Asking → S → Result TenantResponse
  answer id a s = (get_tenant tenants users audit cache is_duplicate str now id a s).0

  abbrev permitted : Asking → Result Bool
  permitted a =
      require_any_permission ("read_own_tenant" ∷ "read_all_tenants" ∷ []) (some a.claims) a.perms

  abbrev reached : ℕ → Asking → Result (Unit {0})
  reached id a =
      own_tenant tenants users audit cache is_duplicate str now "read_all_tenants"
        "Cannot access other tenants" id a

  -- What a caller needs: all tenants, or the own one.
  abbrev pub MayRead : ℕ → Asking → Type 0
  MayRead id a =
      (member "read_all_tenants" a.perms ≡ true)
      ⊎ (member "read_own_tenant" a.perms ≡ true)
        × ((tid : ℤ) × (a.claims.tenant_id ≡ some tid) × (eq_ℤ (pos id) tid ≡ true))

  -- A tenant that is stored has an id.
  abbrev pub IsStored : Option Tenant → Type 0
  IsStored o = (t : Tenant) × (n : ℕ) × (o ≡ some t) × (t.id ≡ some n)

  abbrev reply : Option Tenant → Exec S TenantResponse
  reply o = found tenants users audit cache is_duplicate str now o
