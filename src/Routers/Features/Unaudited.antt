-- ===== src/Routers/Features/Unaudited.antt =====
-- What the body of an update of a flag decides about the audit log.
use clean_architecture_saas.Prelude.{
  ℕ, String, ◌≡◌, refl, false, Option, none, some, arith, inl, inr,
}
use clean_architecture_saas.Python.Exec.{ok, Result-cases}
use clean_architecture_saas.Python.Int.{ℤ}
use clean_architecture_saas.Python.Value.{Value, flag, dict, Fields, get_field, drop_field}
use clean_architecture_saas.Audit.{Audit, log_event, sql_audit}
use clean_architecture_saas.Domain.Audit.{AuditEvent, entry}
use clean_architecture_saas.Domain.Auth.{Conversions}
use clean_architecture_saas.Domain.User.{User}
use clean_architecture_saas.Cache.Client.{CacheClient}
use clean_architecture_saas.Db.Table.{Table}
use clean_architecture_saas.Features
use clean_architecture_saas.Features.{FeatureFlagRepository, Actor}
use clean_architecture_saas.Tenants.Repository.{TenantRepository}
use clean_architecture_saas.Users.Repository.{UserRepository}
use clean_architecture_saas.Routers.Asking.{Asking}
use clean_architecture_saas.Routers.Features.{entered, single, body_tenant, update_feature}

module _ {S : Type 0} (py : Conversions) (hash : String → ℤ) (repo : FeatureFlagRepository S)
    (users : UserRepository S) (tenants : TenantRepository S) (cache : CacheClient S)
    (accounts : Table S User) (events : Table S Audit) (now : ℕ) where
  -- An event of a user whose entry says that audit is off is not written.
  skipped :
      (fs : Fields) (where_at : Value) (e : AuditEvent) (s : S)
      → get_field fs "audit_enabled" ≡ some (flag false)
      → log_event accounts events now (entry fs) where_at e s ≡ (ok tt, s)
  unfolding log_event
  skipped fs where_at e s off = ground (arith, off)

  silent :
      (fs : Fields)
      → get_field fs "audit_enabled" ≡ some (flag false)
      → log_event accounts events now (entry fs) ≡ (λ where_at e s. (ok tt, s))
  silent fs off = λ i where_at e s. skipped fs where_at e s off i

  service_unaudited :
      (fs : Fields) (t : Option Value) (id : ℕ) (fields : Fields) (s : S)
      → get_field fs "audit_enabled" ≡ some (flag false)
      → let actor : Actor = record { actor_user = some fs; current_tenant = t } in
        Features.update_feature_flag py hash repo
          (some (sql_audit accounts events now))
          (some cache)
          actor
          id
          fields
          s
        ≡ Features.update_feature_flag py hash repo none (some cache) actor id fields s
  unfolding Features.update_feature_flag
  service_unaudited fs t id fields s off = rw (silent fs off) refl

  -- A request to update a flag can switch off its own record: with an `actor_user` in its body whose
  -- `audit_enabled` is false, the route does exactly what it does without an audit log.
  pub update_unaudited :
      (id : ℕ) (req : Fields) (a : Asking) (s : S) (fs : Fields)
      → get_field req "actor_user" ≡ some (dict fs)
      → get_field fs "audit_enabled" ≡ some (flag false)
      → update_feature py hash repo users tenants
          (some (sql_audit accounts events now))
          cache
          id
          req
          a
          s
        ≡ update_feature py hash repo users tenants none cache id req a s
  unfolding update_feature
  update_unaudited id req a s fs actor off =
      let m = entered py hash repo users tenants none cache "update_feature_flag" a s in
      elim (Result-cases m.0) [
        | inr (e, k) ↦ ground (arith, k)
        | inl (u, k) ↦ elim (Result-cases (single req)) [
          | inr (e, j) ↦ ground (arith, k, j)
          | inl (v, j) ↦ ground (
            arith,
            k,
            j,
            actor,
            service_unaudited fs (body_tenant (get_field req "current_tenant")) id
                (drop_field (drop_field req "actor_user") "current_tenant") m.1 off,
          )
        ]
      ]
