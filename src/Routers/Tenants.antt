-- ===== src/Routers/Tenants.antt =====
-- routers/tenants.py. Each handler runs after the check of the permission and the rate limit of its
-- route, with the claims of the current user. `str` of a moment is a parameter; logging is left out.
pub mod Reads
use clean_architecture_saas.Prelude.{
  ℕ, String, Bool, true, false, Option, none, some, List, [], ◌∷◌, ◌==◌, if◌then◌else◌,
}
use clean_architecture_saas.Python.Exec.{
  Exc, value_error, http, failure, Result, ok, raised, bind, Exec, pure, raise, lift, attempt,
  ◌>>=◌, ◌>>◌,
}
use clean_architecture_saas.Python.Int.{pos, eq_ℤ}
use clean_architecture_saas.Python.Substring.{occurs}
use clean_architecture_saas.Python.Text.{codes}
use clean_architecture_saas.Python.Value.{
  Value, text, num, nul, texts, dict, truthy, Fields, end, field, get_field,
}
use clean_architecture_saas.Domain.Audit.{
  AuditAction, AuditResource, AuditRepository, Origin, log_audit_event,
}
use clean_architecture_saas.Domain.Auth.{TokenClaims}
use clean_architecture_saas.Domain.Tenant.{Tenant, lower, post_init}
use clean_architecture_saas.Domain.User.{User}
use clean_architecture_saas.Access.Hierarchy.{require_role_hierarchy}
use clean_architecture_saas.Access.Permissions.{
  member, int_or_raise, user_at, require_permission, require_any_permission,
}
use clean_architecture_saas.Access.RateLimit.{Caller, require_rate_limit}
use clean_architecture_saas.Cache.Client.{CacheClient}
use clean_architecture_saas.Tenants.Cached.{text_or_nul, id_or_nul}
use clean_architecture_saas.Tenants.Repository.{TenantRepository}
use clean_architecture_saas.Routers.Asking.{Asking, admit, audited}
use clean_architecture_saas.Tenants.Service
use clean_architecture_saas.Users.Repository.{UserRepository}
use clean_architecture_saas.Users.Service.{CryptContext, create_user}

pub record TenantCreateRequest : Type 0 where
  pub name : String
  pub slug : Option String
  pub domain : Option String
  pub plan : Option String
  pub status : Option String
  pub settings : Option Fields

pub record TenantResponse : Type 0 where
  pub id : ℕ
  pub name : String
  pub slug : Option String
  pub domain : Option String
  pub plan : String
  pub status : String
  pub settings : Value
  pub created_at : String
  pub updated_at : Option String

abbrev pub or_default : Option String → String → String
or_default none d = d
or_default (some s) d = s

abbrev pub settings_of : Option Fields → Value
settings_of none = dict end
settings_of (some fs) = dict fs

-- `list(payload.keys())`
abbrev pub names : Fields → List String
names end = []
names (field k v fs) = k ∷ names fs

-- The handlers turn a `ValueError` of the service into a status.
abbrev pub refused : {S A : Type 0} → Exc → Exec S A
refused (value_error m) = raise (http (if occurs (codes "not found") (lower m) then 404 else 400) m)
refused e = raise e

module _ {S : Type 0} (tenants : TenantRepository S) (users : UserRepository S)
    (audit : Option (AuditRepository S)) (cache : CacheClient S) (is_duplicate : Exc → Bool)
    (str : ℕ → String) (now : ℕ) where
  abbrev pub str_or_none : Option ℕ → Option String
  str_or_none none = none
  str_or_none (some t) = some (str t)

  -- `assert tenant.id is not None`
  abbrev pub respond : Tenant → Exec S TenantResponse
  respond t = elim t.id [
    | none ↦ raise (failure "assertion failed")
    | some n ↦ pure (record {
      id = n;
      name = t.name;
      slug = t.slug;
      domain = t.domain;
      plan = t.plan;
      status = t.status;
      settings = t.settings;
      created_at = or_default (str_or_none t.created_at) "None";
      updated_at = str_or_none t.updated_at;
    })
  ]

  -- A plan or a status that is not given is the column's default.
  abbrev pub new_tenant : TenantCreateRequest → Tenant
  new_tenant req = post_init now (record {
    id = none;
    name = req.name;
    slug = req.slug;
    domain = req.domain;
    plan = or_default req.plan "free";
    status = or_default req.status "active";
    settings = settings_of req.settings;
    created_at = none;
    updated_at = none;
  })

  unfoldable pub create_tenant : TenantCreateRequest → Asking → Exec S TenantResponse
  unfolding require_rate_limit require_permission post_init log_audit_event
  create_tenant req a = do
    admit cache (require_permission "create_tenant" (some a.claims) a.perms) a
    created ← attempt (tenants.create (new_tenant req)) (λ e.
        if is_duplicate e then raise (http 409 "Tenant with that name already exists") else raise e)
    audited users audit a AuditAction.create AuditResource.tenant
        (field "name" (text req.name)
          (field "slug" (text_or_nul created.slug) (field "plan" (text created.plan) end)))
        created.id
    respond created

  abbrev respond_all : List Tenant → Exec S (List TenantResponse)
  respond_all [] = pure []
  respond_all (t ∷ ts) = do r ← respond t; rs ← respond_all ts; pure (r ∷ rs)

  unfoldable pub list_tenants : Asking → Exec S (List TenantResponse)
  unfolding require_rate_limit require_permission
  list_tenants a = do
    admit cache (require_permission "read_all_tenants" (some a.claims) a.perms) a
    ts ← tenants.list_all
    respond_all ts

  -- Without the permission for all tenants only the own one is reached.
  abbrev pub own_tenant : String → String → ℕ → Asking → Result (Unit {0})
  own_tenant all refusal id a = if member all a.perms then ok tt else elim a.claims.tenant_id [
    | none ↦ raised (http 403 "No tenant context")
    | some tid ↦ if eq_ℤ (pos id) tid then ok tt else raised (http 403 refusal)
  ]

  abbrev pub found : Option Tenant → Exec S TenantResponse
  found none = raise (http 404 "Tenant not found")
  found (some t) = respond t

  unfoldable pub get_tenant : ℕ → Asking → Exec S TenantResponse
  unfolding require_rate_limit require_any_permission
  get_tenant id a = do
    admit cache
        (require_any_permission ("read_own_tenant" ∷ "read_all_tenants" ∷ []) (some a.claims)
          a.perms)
        a
    lift (own_tenant "read_all_tenants" "Cannot access other tenants" id a)
    t ← tenants.get_by_id id
    found t

  abbrev pub after_update : ℕ → Fields → Asking → Option Tenant → Exec S TenantResponse
  after_update id payload a none = raise (http 500 "Failed to retrieve updated tenant")
  after_update id payload a (some t) = do
    audited users audit a AuditAction.update AuditResource.tenant
        (field "tenant_id" (num (pos id)) (field "fields" (texts (names payload)) end)) (some id)
    respond t

  abbrev pub change : ℕ → Fields → Asking → Option Tenant → Exec S TenantResponse
  change id payload a none = raise (http 404 "Tenant not found")
  change id payload a (some t) = do
    tenants.update id payload
    updated ← tenants.get_by_id id
    after_update id payload a updated

  unfoldable pub update_tenant : ℕ → Fields → Asking → Exec S TenantResponse
  unfolding require_rate_limit require_permission get_field log_audit_event
  update_tenant id payload a = do
    admit cache (require_permission "update_tenant" (some a.claims) a.perms) a
    elim (get_field payload "status") [
      | some v ↦
          raise
            (http 400 "Cannot update status via this endpoint. Use /suspend, /activate, or /cancel")
      | none ↦ do t ← tenants.get_by_id id; change id payload a t
    ]

  -- The three handlers differ in the method of the service and in the word that is logged.
  abbrev pub set_status : String → Exec S Tenant → ℕ → Asking → Exec S TenantResponse
  set_status word method id a = do
    admit cache (require_permission "manage_tenant_status" (some a.claims) a.perms) a
    updated ← attempt method refused
    audited users audit a AuditAction.update AuditResource.tenant
        (field "tenant_id" (num (pos id))
          (field "action" (text word) (field "tenant_name" (text updated.name) end)))
        (some id)
    respond updated

  unfoldable pub suspend_tenant : ℕ → Asking → Exec S TenantResponse
  unfolding require_rate_limit require_permission log_audit_event lower occurs
  suspend_tenant id a = set_status "suspend" (Service.suspend_tenant tenants id) id a

  unfoldable pub activate_tenant : ℕ → Asking → Exec S TenantResponse
  unfolding require_rate_limit require_permission log_audit_event lower occurs
  activate_tenant id a = set_status "activate" (Service.activate_tenant tenants id) id a

  unfoldable pub cancel_tenant : ℕ → Asking → Exec S TenantResponse
  unfolding require_rate_limit require_permission log_audit_event lower occurs
  cancel_tenant id a = set_status "cancel" (Service.cancel_tenant tenants id) id a

  -- The role hierarchy takes the path's id, which is the tenant's, as the id of a target user.
  unfoldable pub create_user_in_tenant :
      CryptContext S → ℕ → String → String → Option String → Asking → Exec S User
  unfolding require_rate_limit require_any_permission require_role_hierarchy create_user
      log_audit_event
  create_user_in_tenant crypt id email password role a = do
    lift (
        require_any_permission ("create_tenant_user" ∷ "create_all_users" ∷ []) (some a.claims)
          a.perms)
    require_role_hierarchy users
        (record { target_user_id = none; id = some (pos id); query_role = role; body = none })
        (some a.claims)
    require_rate_limit cache a.caller
    lift (own_tenant "create_all_users" "Cannot create users in other tenants" id a)
    created ←
        create_user users crypt none (raise (failure "unused")) now id email password
          (or_default role "member") none none
    audited users audit a AuditAction.create AuditResource.user
        (field "tenant_id" (num (pos id)) (
          field "email" (text email) (
            field "role" (text (or_default role "member"))
              (field "created_user_id" (id_or_nul created.id) end))))
        created.id
    elim created.id [ none ↦ raise (failure "int() of None") | some n ↦ pure created ]
