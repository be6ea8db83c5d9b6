-- ===== src/Routers/Asking.antt =====
-- What the routers about tenants, permissions and flags do before and after their work: the
-- dependencies of a route, and the record of what was done.
use clean_architecture_saas.Prelude.{ℕ, String, Bool, Option, none, some, List}
use clean_architecture_saas.Python.Exec.{Result, Exec, pure, lift, ◌>>=◌, ◌>>◌}
use clean_architecture_saas.Python.Value.{Fields}
use clean_architecture_saas.Domain.Audit.{
  AuditAction, AuditResource, AuditRepository, log_audit_event,
}
use clean_architecture_saas.Domain.Auth.{TokenClaims}
use clean_architecture_saas.Domain.User.{User}
use clean_architecture_saas.Access.Permissions.{int_or_raise, user_at}
use clean_architecture_saas.Access.RateLimit.{Caller, require_rate_limit}
use clean_architecture_saas.Cache.Client.{CacheClient}
use clean_architecture_saas.Users.Repository.{UserRepository}

-- Who asks, with the permissions that the middleware found.
pub record Asking : Type 0 where
  pub caller : Caller
  pub agent : Option String
  pub claims : TokenClaims
  pub perms : List String

module _ {S : Type 0} (cache : CacheClient S) where
  -- The dependencies of a route, in their order.
  abbrev pub admit : Result Bool → Asking → Exec S (Unit {0})
  admit permitted a = do lift permitted; require_rate_limit cache a.caller

module _ {S : Type 0} (users : UserRepository S) (audit : Option (AuditRepository S)) where
  abbrev pub log_for :
      Asking → AuditAction → AuditResource → Fields → Option ℕ → Option User → Exec S (Unit {0})
  log_for a action resource details id none = pure tt
  log_for a action resource details id (some u) =
      log_audit_event audit u action resource details id
        (record { ip = a.caller.ip; agent = a.agent })

  abbrev pub audited : Asking → AuditAction → AuditResource → Fields → Option ℕ → Exec S (Unit {0})
  audited a action resource details id = do
    n ← lift (int_or_raise a.claims.subject)
    u ← user_at users n
    log_for a action resource details id u
