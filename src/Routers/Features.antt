-- ===== src/Routers/Features.antt =====
-- routers/feature_flags.py and its requests and replies of schemas/feature_flag.py, over any
-- repository of flags, users and tenants. The tenant is what `get_current_tenant_id` answers.
pub mod Unaudited
use clean_architecture_saas.Prelude.{
  ℕ, String, Bool, true, false, ◌||◌, nat_eq, Option, none, some, List, if◌then◌else◌,
}
use clean_architecture_saas.Python.Exec.{
  failure, http, Result, ok, Exec, pure, lift, attempt, ◌>>=◌, ◌>>◌,
}
use clean_architecture_saas.Python.Int.{ℤ}
use clean_architecture_saas.Python.Text.{parse_int}
use clean_architecture_saas.Python.Value.{
  Value, nul, flag, num, text, list, dict, Fields, end, field, get_field, drop_field,
}
use clean_architecture_saas.Domain.Audit.{AuditRepository}
use clean_architecture_saas.Domain.Auth.{Conversions}
use clean_architecture_saas.Domain.Feature.{UserId}
use clean_architecture_saas.Access.Permissions.{int_or_raise, user_at, require_permission}
use clean_architecture_saas.Access.RateLimit.{require_rate_limit}
use clean_architecture_saas.Cache.Client.{CacheClient}
use clean_architecture_saas.Features
use clean_architecture_saas.Features.{FeatureFlagRepository, Actor}
use clean_architecture_saas.Features.Caching.{flags}
use clean_architecture_saas.Tenants.Cached.{text_or_nul}
use clean_architecture_saas.Tenants.Repository.{TenantRepository}
use clean_architecture_saas.Users.Repository.{UserRepository}
use clean_architecture_saas.Routers.Asking.{Asking, admit}

pub record FeatureFlagCreateRequest : Type 0 where
  pub tenant_id : Option ℕ
  pub key : String
  pub name : String
  pub description : Option String
  pub is_enabled : Bool
  pub type : String
  pub enabled_value : Option Fields
  pub default_value : Option Fields
  pub rules : Option (List Fields)
  pub rollout : Option Fields

pub record FeatureFlagEvaluateRequest : Type 0 where
  pub key : String
  pub tenant_id : Option ℕ
  pub return_value : Option Bool
  pub custom : Option Fields

pub record FeatureFlagEvaluationResponse : Type 0 where
  pub key : String
  pub is_enabled : Option Bool
  pub value : Option Value

pub record FeatureFlagActionResponse : Type 0 where
  pub status : String

abbrev dict_or_nul : Option Fields → Value
dict_or_nul none = nul
dict_or_nul (some fs) = dict fs

abbrev list_or_nul : Option (List Fields) → Value
list_or_nul none = nul
list_or_nul (some rows) = list (flags rows)

-- The arguments of the call of the service; the type is the service's default, not the request's.
abbrev arguments : FeatureFlagCreateRequest → Fields
arguments q = field "key" (text q.key) (
    field "name" (text q.name) (
      field "description" (text_or_nul q.description) (
        field "is_enabled" (flag q.is_enabled) (
          field "type" (text "boolean") (
            field "enabled_value" (dict_or_nul q.enabled_value) (
              field "default_value" (dict_or_nul q.default_value) (
                field "rules" (list_or_nul q.rules)
                  (field "rollout" (dict_or_nul q.rollout) end))))))))

-- The tenant that is named, if it is the current one, or else the current one.
unfoldable pub requested : Option ℕ → ℕ → Result ℕ
requested none tid = ok tid
requested (some n) tid =
    if nat_eq n tid
    then ok n
    else Result.raised (http 403 "cannot create feature flag for a different tenant")

-- `{"id": user_id}`, if the subject is a number.
abbrev actor_of : String → Option Fields
actor_of subject = elim (parse_int subject) [ none ↦ none | some n ↦ some (field "id" (num n) end) ]

-- `actor_user` and `current_tenant` of the body are arguments of the service. An actor that is no
-- dictionary counts as one without entries, as it does for the audit log.
abbrev body_actor : Option Value → Option Fields
body_actor none = none
body_actor (some v) = elim v [ dict fs ↦ some fs | _ ↦ none ]

abbrev pub body_tenant : Option Value → Option Value
body_tenant none = none
body_tenant (some v) = elim v [ nul ↦ none | w ↦ some w ]

abbrev has : Fields → String → Bool
has fs k = elim (get_field fs k) [ none ↦ false | some v ↦ true ]

-- A body with an entry `id` or `self` gives the argument twice, which is a `TypeError`.
abbrev pub single : Fields → Result (Unit {0})
single req =
    if has req "id" || has req "self"
    then Result.raised (failure "got multiple values for argument")
    else ok tt

module _ {S : Type 0} (py : Conversions) (hash : String → ℤ) (repo : FeatureFlagRepository S)
    (users : UserRepository S) (tenants : TenantRepository S) (audit : Option (AuditRepository S))
    (cache : CacheClient S) where
  abbrev pub entered : String → Asking → Exec S (Unit {0})
  entered name a = admit cache (require_permission name (some a.claims) a.perms) a

  unfoldable pub create_feature_flag : ℕ → FeatureFlagCreateRequest → Asking → Exec S Fields
  unfolding require_permission require_rate_limit requested parse_int Features.create_feature_flag
  create_feature_flag tid q a = do
    entered "create_feature_flag" a
    n ← lift (requested q.tenant_id tid)
    Features.create_feature_flag py hash repo audit (some cache)
        (record { actor_user = actor_of a.claims.subject; current_tenant = none }) (some n) q.key
        q.is_enabled (arguments q)

  -- The role and the plan are looked up, with every failure passed over; the service ignores them.
  abbrev look_up : String → ℕ → Exec S (Unit {0})
  look_up subject tid = do
    attempt (do n ← lift (int_or_raise subject); user_at users n; pure tt) (λ e. pure tt)
    attempt (do tenants.get_by_id tid; pure tt) (λ e. pure tt)

  abbrev eval_tenant : Option ℕ → ℕ → ℕ
  eval_tenant none tid = tid
  eval_tenant (some n) tid = n

  abbrev custom_of : Option Fields → Option Fields
  custom_of none = some end
  custom_of (some fs) = some fs

  abbrev wants_value : Option Bool → Bool
  wants_value none = false
  wants_value (some b) = b

  abbrev answer :
      ℕ → FeatureFlagEvaluateRequest → Option UserId → Bool → Exec S FeatureFlagEvaluationResponse
  answer tid q uid true = do
    v ←
        Features.get_feature_value py hash repo none (some cache) (some tid) q.key uid
          (custom_of q.custom)
    pure (record { key = q.key; is_enabled = none; value = some v })
  answer tid q uid false = do
    b ←
        Features.is_feature_enabled py hash repo none (some cache) (some tid) q.key uid
          (custom_of q.custom)
    pure (record { key = q.key; is_enabled = some b; value = none })

  unfoldable pub evaluate_feature :
      ℕ → FeatureFlagEvaluateRequest → Asking → Exec S FeatureFlagEvaluationResponse
  unfolding require_permission require_rate_limit parse_int Features.get_feature_value
      Features.is_feature_enabled
  evaluate_feature tid q a = do
    entered "read_feature_flag" a
    look_up a.claims.subject (eval_tenant q.tenant_id tid)
    answer (eval_tenant q.tenant_id tid) q (some (UserId.str a.claims.subject))
        (wants_value q.return_value)

  unfoldable pub update_feature : ℕ → Fields → Asking → Exec S Fields
  unfolding require_permission require_rate_limit get_field drop_field Features.update_feature_flag
  update_feature id req a = do
    entered "update_feature_flag" a
    lift (single req)
    Features.update_feature_flag py hash repo audit (some cache)
        (record {
          actor_user = body_actor (get_field req "actor_user");
          current_tenant = body_tenant (get_field req "current_tenant");
        })
        id (drop_field (drop_field req "actor_user") "current_tenant")

  unfoldable pub delete_feature : ℕ → Asking → Exec S FeatureFlagActionResponse
  unfolding require_permission require_rate_limit Features.delete_feature_flag
  delete_feature id a = do
    entered "delete_feature_flag" a
    Features.delete_feature_flag py hash repo audit (some cache)
        (record { actor_user = none; current_tenant = none }) id
    pure (record { status = "ok" })

  unfoldable pub list_features : ℕ → ℕ → ℕ → Asking → Exec S (List Fields)
  unfolding require_permission require_rate_limit Features.list_feature_flags
  list_features tid limit offset a = do
    entered "read_feature_flag" a
    Features.list_feature_flags py hash repo none none (some tid) limit offset
