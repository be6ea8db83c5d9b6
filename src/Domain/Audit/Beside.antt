-- ===== src/Domain/Audit/Beside.antt =====
-- `log_audit_event` does nothing but log, if anything.
use clean_architecture_saas.Prelude.{ℕ, ◌≡◌, refl, Option, none, some}
use clean_architecture_saas.Python.Preserves.{Preserves, after_handle}
use clean_architecture_saas.Python.Value.{Value, Fields}
use clean_architecture_saas.Domain.Audit.{
  AuditRepository, AuditEvent, AuditAction, AuditResource, Origin, Subject, log_as, log_audit_event,
}
use clean_architecture_saas.Domain.User.{User}

-- Whatever log there is preserves `P`.
abbrev pub Logs : {S : Type 0} → (S → Type 0) → Option (AuditRepository S) → Type 0
Logs {S} P audit =
    (r : AuditRepository S) (w : Subject) (v : Value) (e : AuditEvent)
    → audit ≡ some r
    → Preserves P (r.log_event w v e)

module _ {S : Type 0} (P : S → Type 0) (u : User) (action : AuditAction) (resource : AuditResource)
    (details : Fields) (resource_id : Option ℕ) (origin : Origin) where
  log_as-Preserves :
      (r : AuditRepository S) (uid : Option ℕ)
      → Logs P (some r)
      → Preserves P (log_as r u action resource details resource_id origin uid)
  log_as-Preserves r none logs s p = p
  log_as-Preserves r (some uid) logs s p = logs r _ _ _ refl s p

  pub log_audit_event-Preserves :
      (audit : Option (AuditRepository S))
      → Logs P audit
      → Preserves P (log_audit_event audit u action resource details resource_id origin)
  unfolding log_audit_event
  log_audit_event-Preserves none logs s p = p
  log_audit_event-Preserves (some r) logs s p =
      search (after_handle P, log_as-Preserves r u.id logs)
