-- ===== src/Audit.antt =====
-- infrastructure/repositories/audit_repository.py, over the tables of users and of events, and
-- services/audit_service.py. The handlers only log.
pub mod Laws
use clean_architecture_saas.Prelude.{
  ℕ, String, Bool, true, false, Option, none, some, first, ◌==◌, if◌then◌else◌,
}
use clean_architecture_saas.Python.Exec.{Exec, pure, attempt, ◌>>=◌, ◌>>◌}
use clean_architecture_saas.Python.Int.{ℤ, pos, negsuc}
use clean_architecture_saas.Python.Text.{parse_int}
use clean_architecture_saas.Python.Value.{
  Value, nul, flag, num, text, list, texts, dict, truthy, Fields, end, field, get_field, or_nul,
}
use clean_architecture_saas.Domain.Audit.{
  AuditAction, AuditResource, AuditEvent, AuditRecord, AuditRepository, Subject, claims, entry,
  nobody, to_record, resource_value,
}
use clean_architecture_saas.Domain.User.{User}
use clean_architecture_saas.Cache.InMemory.{int_of}
use clean_architecture_saas.Db.Table.{Table, same_id}

-- A row of `AuditModel`
pub record Audit : Type 0 where
  pub user_id : Option ℤ
  pub tenant_id : Option ℤ
  pub action : String
  pub resource : Option String
  pub resource_id : Value
  pub details : Fields
  pub ip_address : Option String
  pub user_agent : Option String
  pub timestamp : ℕ

-- `int(v) if v is not None else None`, with `None` for what raises
abbrev pub id_in : Value → Option ℤ
id_in nul = none
id_in v = int_of v

abbrev pub or_value : Value → Value → Value
or_value v w = if truthy v then v else w

abbrev pub user_id_of : Subject → Option ℤ
user_id_of (claims c) = if c.subject == "" then none else parse_int c.subject
user_id_of (entry fs) = id_in (or_value (or_nul (get_field fs "sub")) (or_nul (get_field fs "id")))
user_id_of nobody = none

abbrev pub tenant_id_of : Value → Option ℤ
tenant_id_of v = elim v [ dict fs ↦ id_in (or_nul (get_field fs "id")) | _ ↦ none ]

abbrev pub preference : Subject → Value
preference (claims c) = or_nul (get_field c.extra "audit_enabled")
preference (entry fs) = or_nul (get_field fs "audit_enabled")
preference nobody = nul

-- `is False`
abbrev pub is_off : Option User → Bool
is_off none = false
is_off (some u) = if u.audit_enabled then false else true

abbrev pub row_of : ℕ → Subject → Value → AuditEvent → Audit
row_of now who where_at e = record {
  user_id = user_id_of who;
  tenant_id = tenant_id_of where_at;
  action = (to_record e).action;
  resource = resource_value e;
  resource_id = e.resource_id;
  details = (to_record e).details;
  ip_address = (to_record e).ip_address;
  user_agent = (to_record e).user_agent;
  timestamp = elim (to_record e).timestamp [ none ↦ now | some t ↦ t ];
}

module _ {S : Type 0} (users : Table S User) (table : Table S Audit) (now : ℕ) where
  -- A preference that is not given is looked up in the user's row.
  abbrev pub looked_up : Option ℤ → Exec S Bool
  looked_up none = pure false
  looked_up (some (negsuc n)) = pure false
  looked_up (some (pos n)) = do
    rows ← users.select (λ u. same_id u.id n)
    pure (is_off (first rows))

  abbrev pub skips : Value → Option ℤ → Exec S Bool
  skips v uid = elim v [
    | flag b ↦ pure (if b then false else true)
    | nul ↦ attempt (looked_up uid) (λ e. pure false)
    | _ ↦ pure false
  ]

  unfoldable pub log_event : Subject → Value → AuditEvent → Exec S (Unit {0})
  unfolding get_field parse_int int_of to_record resource_value
  log_event who where_at e = do
    off ← skips (preference who) (user_id_of who)
    if off
        then pure tt
        else attempt (do table.add (row_of now who where_at e); pure tt) (λ x. pure tt)

  abbrev pub sql_audit : AuditRepository S
  sql_audit = record { log_event = log_event }

-- A detail that is no dictionary becomes the message of one.
abbrev pub detail_fields : Value → Option Fields
detail_fields v = elim v [ dict fs ↦ some fs | nul ↦ none | w ↦ some (field "message" w end) ]

module _ {S : Type 0} (repo : AuditRepository S) where
  -- `AuditService.log`
  unfoldable pub log :
      Subject
      → Value
      → AuditAction
      → Option AuditResource
      → Value
      → Option String
      → Option String
      → Exec S (Unit {0})
  log who where_at action resource detail ip_address user_agent =
      repo.log_event who where_at (record {
        action = action;
        resource = resource;
        resource_id = nul;
        details = detail_fields detail;
        ip_address = ip_address;
        user_agent = user_agent;
        timestamp = none;
        metadata = end;
      })
