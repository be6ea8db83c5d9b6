-- ===== src/Domain/Audit.antt =====
-- domain/audit.py, and the port in ports/audit.py. The two enumerations are of texts; the metrics and
-- the logging are left out.
pub mod Beside
use Prim.Native.String
use clean_architecture_saas.Prelude.{ℕ, String, Option, none, some}
use clean_architecture_saas.Python.Exec.{failure, Exec, pure, raise, attempt}
use clean_architecture_saas.Python.Int.{pos}
use clean_architecture_saas.Python.Value.{
  Value, nul, num, text, flag, dict, truthy, Fields, end, field, default_field,
}
use clean_architecture_saas.Domain.Auth.{TokenClaims}
use clean_architecture_saas.Domain.User.{User}

pub data AuditAction : Type 0 where
  create read update delete login logout token_issued token_revoked register : AuditAction

unfoldable pub action_value : AuditAction → String
action_value AuditAction.create = "create"
action_value AuditAction.read = "read"
action_value AuditAction.update = "update"
action_value AuditAction.delete = "delete"
action_value AuditAction.login = "login"
action_value AuditAction.logout = "logout"
action_value AuditAction.token_issued = "token_issued"
action_value AuditAction.token_revoked = "token_revoked"
action_value AuditAction.register = "register"

pub data AuditResource : Type 0 where
  user tenant permission feature_flag session auth token : AuditResource

unfoldable pub resource_text : AuditResource → String
resource_text AuditResource.user = "user"
resource_text AuditResource.tenant = "tenant"
resource_text AuditResource.permission = "permission"
resource_text AuditResource.feature_flag = "feature_flag"
resource_text AuditResource.session = "session"
resource_text AuditResource.auth = "auth"
resource_text AuditResource.token = "token"

-- `resource_id` is a value as the services read it out of a stored flag, and `nul` for `None`.
pub record AuditEvent : Type 0 where
  pub action : AuditAction
  pub resource : Option AuditResource
  pub resource_id : Value
  pub details : Option Fields
  pub ip_address : Option String
  pub user_agent : Option String
  pub timestamp : Option ℕ
  pub metadata : Fields

-- The dictionary of `to_record`
pub record AuditRecord : Type 0 where
  pub action : String
  pub details : Fields
  pub ip_address : Option String
  pub user_agent : Option String
  pub timestamp : Option ℕ

unfoldable pub resource_value : AuditEvent → Option String
unfolding resource_text
resource_value e = elim e.resource [ none ↦ none | some r ↦ some (resource_text r) ]

abbrev pub with_resource : Option String → Fields → Fields
with_resource none fs = fs
with_resource (some r) fs = default_field fs "resource" (text r)

abbrev pub with_id : Value → Fields → Fields
with_id nul fs = fs
with_id v fs = default_field fs "resource_id" v

abbrev pub with_meta : Fields → Fields → Fields
with_meta end fs = fs
with_meta (field k v m) fs = default_field fs "meta" (dict (field k v m))

unfoldable pub to_record : AuditEvent → AuditRecord
unfolding action_value resource_value default_field
to_record e = record {
  action = action_value e.action;
  details = with_meta e.metadata (
      with_id e.resource_id
        (with_resource (resource_value e) (elim e.details [ none ↦ end | some fs ↦ fs ])));
  ip_address = e.ip_address;
  user_agent = e.user_agent;
  timestamp = e.timestamp;
}

-- What callers pass as the current user: claims, a dictionary, or `None`.
pub data Subject : Type 0 where
  claims : TokenClaims → Subject
  entry : Fields → Subject
  nobody : Subject

pub record AuditRepository (S : Type 0) : Type 0 where
  pub log_event : Subject → Value → AuditEvent → Exec S (Unit {0})

-- What is read of a request: the address of its client, if it has one, and its user agent.
pub record Origin : Type 0 where
  pub ip : Option String
  pub agent : Option String

abbrev pub or_own : Option ℕ → ℕ → Value
or_own none uid = num (pos uid)
or_own (some id) uid = num (pos id)

module _ {S : Type 0} where
  -- The body of the `try`; `int(None)` raises.
  abbrev pub log_as :
      AuditRepository S
      → User
      → AuditAction
      → AuditResource
      → Fields
      → Option ℕ
      → Origin
      → Option ℕ
      → Exec S (Unit {0})
  log_as repo u action resource details resource_id origin none = raise (failure "int() of None")
  log_as repo u action resource details resource_id origin (some uid) =
      repo.log_event
        (entry (
          field "id" (num (pos uid))
            (field "email" (text u.email) (field "audit_enabled" (flag u.audit_enabled) end))))
        (dict (field "id" (num (pos u.tenant_id)) end))
        (record {
          action = action;
          resource = some resource;
          resource_id = or_own resource_id uid;
          details = some details;
          ip_address = origin.ip;
          user_agent = origin.agent;
          timestamp = none;
          metadata = end;
        })

  unfoldable pub log_audit_event :
      Option (AuditRepository S)
      → User
      → AuditAction
      → AuditResource
      → Fields
      → Option ℕ
      → Origin
      → Exec S (Unit {0})
  log_audit_event audit u action resource details resource_id origin = elim audit [
    | none ↦ pure tt
    | some repo ↦
        attempt (log_as repo u action resource details resource_id origin u.id) (λ e. pure tt)
  ]
