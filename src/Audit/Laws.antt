-- ===== src/Audit/Laws.antt =====
-- Which events are written, and that writing one never fails the caller.
use clean_architecture_saas.Prelude.{
  ℕ, String, ◌≡◌, refl, inl, inr, Bool, true, false, Option, none, some, arith, if◌then◌else◌,
  eq_iff,
}
use clean_architecture_saas.Python.Exec.{ok, pure, attempt, Result-cases, ◌>>◌}
use clean_architecture_saas.Python.Int.{pos}
use clean_architecture_saas.Python.Value.{
  Value, nul, text, dict, Fields, end, field, get_field, default_field,
}
use clean_architecture_saas.Python.Fields.{get_field-set_field}
use clean_architecture_saas.Domain.Audit.{
  AuditAction, AuditResource, AuditEvent, Origin, action_value, resource_text, log_as,
  log_audit_event, or_own, with_resource, with_id, with_meta, to_record, resource_value,
}
use clean_architecture_saas.Domain.User.{User}
use clean_architecture_saas.Db.Table.{Table}
use clean_architecture_saas.Audit.{Audit, sql_audit, log_event}

-- What is set by default never replaces what is there.
default_kept :
    (fs : Fields) (k j : String) (v w : Value)
    → get_field fs j ≡ some w
    → get_field (default_field fs k v) j ≡ some w
unfolding default_field
default_kept fs k j v w h = ground (arith, get_field-set_field fs k j v, eq_iff k j)

resource_kept :
    (r : Option String) (fs : Fields) (k : String) (v : Value)
    → get_field fs k ≡ some v
    → get_field (with_resource r fs) k ≡ some v
resource_kept none fs k v h = h
resource_kept (some r) fs k v h = default_kept fs "resource" k (text r) v h

id_kept :
    (id : Value) (fs : Fields) (k : String) (v : Value)
    → get_field fs k ≡ some v
    → get_field (with_id id fs) k ≡ some v
id_kept nul fs k v h = h
id_kept id fs k v h = default_kept fs "resource_id" k id v h

meta_kept :
    (m : Fields) (fs : Fields) (k : String) (v : Value)
    → get_field fs k ≡ some v
    → get_field (with_meta m fs) k ≡ some v
meta_kept end fs k v h = h
meta_kept (field j w m) fs k v h = default_kept fs "meta" k (dict (field j w m)) v h

-- The details that a caller gives are recorded as they are: neither the resource, nor its id, nor
-- the metadata of the event replaces a field of theirs.
pub details_kept :
    (e : AuditEvent) (fs : Fields) (k : String) (v : Value)
    → e.details ≡ some fs
    → get_field fs k ≡ some v
    → get_field (to_record e).details k ≡ some v
unfolding to_record
details_kept e fs k v given there =
    meta_kept e.metadata _ k v
      (id_kept e.resource_id _ k v (resource_kept (resource_value e) _ k v (rw given there)))

module _ {S : Type 0} (users : Table S User) (table : Table S Audit) (now : ℕ) where
  -- The row of an event on a resource by a stored user.
  abbrev pub audit_row : User → ℕ → AuditAction → AuditResource → Fields → Option ℕ → Origin → Audit
  audit_row u uid action resource details resource_id origin = record {
    user_id = some (pos uid);
    tenant_id = some (pos u.tenant_id);
    action = action_value action;
    resource = some (resource_text resource);
    resource_id = or_own resource_id uid;
    details =
        default_field (default_field details "resource" (text (resource_text resource)))
          "resource_id" (or_own resource_id uid);
    ip_address = origin.ip;
    user_agent = origin.agent;
    timestamp = now;
  }

  adds :
      (r : Audit) (s : S)
      → attempt (do table.add r; pure tt) (λ x. pure tt) s ≡ (ok tt, (table.add r s).1)
  adds r s = elim (Result-cases (table.add r s).0) [
    | inl (a, e) ↦ ground arith
    | inr (x, e) ↦ ground arith
  ]

  log_as_lem :
      (b : Bool) (u : User) (uid : ℕ) (action : AuditAction) (resource : AuditResource)
      (details : Fields) (resource_id : Option ℕ) (origin : Origin) (s : S)
      → u.audit_enabled ≡ b
      → attempt
          (log_as
            (sql_audit users table now)
            u
            action
            resource
            details
            resource_id
            origin
            (some uid))
          (λ e. pure tt)
          s
        ≡ (
          ok tt,
          if b
              then (table.add (audit_row u uid action resource details resource_id origin) s).1
              else s,
        )
  unfolding log_event
  log_as_lem false u uid action resource details resource_id origin s b = rw b refl
  log_as_lem true u uid action resource details none origin s b =
      rw b (ground (arith, adds (audit_row u uid action resource details none origin) s))
  log_as_lem true u uid action resource details (some id) origin s b =
      rw b (ground (arith, adds (audit_row u uid action resource details (some id) origin) s))

  -- An event by a stored user never fails the caller, and adds exactly its row if auditing is on
  -- for the user, and nothing if it is off.
  pub log_audit_event_lem :
      (u : User) (uid : ℕ) (action : AuditAction) (resource : AuditResource) (details : Fields)
      (resource_id : Option ℕ) (origin : Origin) (s : S)
      → u.id ≡ some uid
      → log_audit_event
          (some (sql_audit users table now))
          u
          action
          resource
          details
          resource_id
          origin
          s
        ≡ (
          ok tt,
          if u.audit_enabled
              then (table.add (audit_row u uid action resource details resource_id origin) s).1
              else s,
        )
  unfolding log_audit_event log_event
  log_audit_event_lem u uid action resource details resource_id origin s h =
      rw h (log_as_lem u.audit_enabled u uid action resource details resource_id origin s refl)
