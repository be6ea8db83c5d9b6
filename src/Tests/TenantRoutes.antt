-- ===== src/Tests/TenantRoutes.antt =====
-- The routes of tenants, over one row.
use clean_architecture_saas.Prelude.{ℕ, String, Bool, false, none, some, [], ◌∷◌}
use clean_architecture_saas.Python.Dict
use clean_architecture_saas.Python.Exec.{Exc, pure}
use clean_architecture_saas.Access.RateLimit.{require_rate_limit}
use clean_architecture_saas.Users.Repository.{UserRepository}
use clean_architecture_saas.Routers.Asking.{Asking}
use clean_architecture_saas.Tests.OneTenant.{Both, cache_beside}
use clean_architecture_saas.Tests.Routers.{caller}
use clean_architecture_saas.Tests.World.{claims_of, empty_cache}

abbrev no_users : UserRepository Both
no_users = record {
  create = λ u. pure u;
  get_by_email = λ tid email. pure none;
  get_by_email_global = λ email. pure none;
  get_by_id = λ n. pure none;
  list_by_tenant = λ tid. pure [];
  delete = λ n. pure tt;
  update = λ n fs. pure none;
  set_password = λ n h. pure tt;
  update_last_login = λ n t. pure tt;
  set_email = λ n e. pure tt;
}

-- A member of the tenant 1.
abbrev asking : Asking
asking = record {
  caller = caller;
  agent = none;
  claims = claims_of "1";
  perms = "read_own_tenant" ∷ [];
}

abbrev start : Both
start = (some ("acme", "active"), empty_cache)

abbrev limited : Both
limited = (require_rate_limit cache_beside caller start).1

abbrev duplicate : Exc → Bool
duplicate e = false

abbrev str : ℕ → String
str t = "2024"
