-- ===== src/Tenants/Service.antt =====
-- services/tenant_service.py, over any repository of tenants. The logging is left out.
pub mod Safety
use Prim.Native.String
use clean_architecture_saas.Prelude.{ℕ, String, Option, none, some, if◌then◌else◌}
use clean_architecture_saas.Python.Exec.{value_error, Exec, pure, raise, ◌>>=◌}
use clean_architecture_saas.Python.Value.{text, field, end}
use clean_architecture_saas.Domain.Tenant.{Tenant, can_transition_to}
use clean_architecture_saas.Tenants.Repository.{TenantRepository}

module _ {S : Type 0} (repo : TenantRepository S) where
  open repo use {get_by_id, update}

  abbrev pub checked : Option Tenant → Exec S Tenant
  checked none = raise (value_error "Failed to update tenant status")
  checked (some t) = pure t

  -- The three methods differ in the verb of a message and in the target.
  abbrev pub transition : String → String → ℕ → Option Tenant → Exec S Tenant
  transition verb target id none = raise (value_error "Tenant not found")
  transition verb target id (some t) =
      if can_transition_to t target
      then (do updated ← update id (field "status" (text target) end); checked updated)
      else raise (
          value_error (
            String.◌++◌ "Cannot "
              (String.◌++◌ verb (String.◌++◌ " tenant in " (String.◌++◌ t.status " status")))))

  unfoldable pub suspend_tenant : ℕ → Exec S Tenant
  suspend_tenant id = do t ← get_by_id id; transition "suspend" "suspended" id t

  unfoldable pub activate_tenant : ℕ → Exec S Tenant
  activate_tenant id = do t ← get_by_id id; transition "activate" "active" id t

  unfoldable pub cancel_tenant : ℕ → Exec S Tenant
  cancel_tenant id = do t ← get_by_id id; transition "cancel" "canceled" id t
