-- ===== src/Features.antt =====
-- services/feature_service.py, over any repository of flags, audit log and cache client. A flag is
-- the dictionary that the repository returns; the metrics are left out.
pub mod Caching
pub mod Repository
pub mod Stored
use clean_architecture_saas.Prelude.{
  ℕ, String, Bool, true, false, Option, none, some, List, [], ◌∷◌, if◌then◌else◌,
}
use clean_architecture_saas.Python.Exec.{Exec, Result, ok, pure, lift, bind, ◌>>=◌, ◌>>◌}
use clean_architecture_saas.Python.Int.{ℤ, pos}
use clean_architecture_saas.Python.Text.{show}
use clean_architecture_saas.Python.Value.{
  Value, nul, flag, num, text, dict, truthy, Fields, end, field, get_field, or_nul,
}
use clean_architecture_saas.Domain.Audit
use clean_architecture_saas.Domain.Audit.{
  AuditAction, AuditResource, AuditEvent, AuditRepository, Subject, entry,
}
use clean_architecture_saas.Domain.Auth.{Conversions, str_of}
use clean_architecture_saas.Domain.Feature.{FeatureFlagContext, UserId, evaluate}
use clean_architecture_saas.Domain.Feature.Stored.{flag_of}
use clean_architecture_saas.Cache.Client.{CacheClient}
use clean_architecture_saas.Cache.Keys.{◌&◌}

-- ports/repositories/feature_flag.py; `create` takes its named arguments as fields.
pub record FeatureFlagRepository (S : Type 0) : Type 0 where
  pub create : Option ℕ → Fields → Exec S Fields
  pub get_by_key : Option ℕ → String → Exec S (Option Fields)
  pub get_by_id : ℕ → Exec S (Option Fields)
  pub update : ℕ → Fields → Exec S Fields
  pub delete : ℕ → Exec S (Unit {0})
  pub list : Option ℕ → ℕ → ℕ → Exec S (List Fields)

-- Who acts, and where.
pub record Actor : Type 0 where
  pub actor_user : Option Fields
  pub current_tenant : Option Value

abbrev none_or : Option ℕ → Value
none_or none = nul
none_or (some n) = num (pos n)

abbrev pub flag_key : String → String → String
flag_key tenant key = "feature:" & (tenant & (":" & key))

abbrev pub id_text : Option ℕ → String
id_text none = "None"
id_text (some n) = show n

abbrev user_of : Actor → Subject
user_of a = elim a.actor_user [ none ↦ entry end | some fs ↦ entry fs ]

abbrev tenant_of : Actor → Value → Value
tenant_of a id = elim a.current_tenant [ none ↦ dict (field "id" id end) | some t ↦ t ]

abbrev item : Option Fields → String → Value
item none k = nul
item (some fs) k = or_nul (get_field fs k)

-- The dictionary that is cached, if one is.
abbrev pub cached_flag : Option Value → Option Fields
cached_flag none = none
cached_flag (some v) = elim v [ dict fs ↦ some fs | _ ↦ none ]

module _ {S : Type 0} (py : Conversions) (hash : String → ℤ) (repo : FeatureFlagRepository S)
    (audit : Option (AuditRepository S)) (cache : Option (CacheClient S)) where
  abbrev event : AuditAction → Value → Fields → AuditEvent
  event action id details = record {
    action = action;
    resource = some AuditResource.feature_flag;
    resource_id = id;
    details = some details;
    ip_address = none;
    user_agent = none;
    timestamp = none;
    metadata = end;
  }

  abbrev log : Actor → Value → AuditEvent → Exec S (Unit {0})
  log actor id e = elim audit [
    | none ↦ pure tt
    | some a ↦ a.log_event (user_of actor) (tenant_of actor id) e
  ]

  abbrev store : String → String → Exec S (Unit {0})
  store key word = elim cache [ none ↦ pure tt | some c ↦ c.set key (text word) none ]

  -- The arguments besides the tenant are fields, the key and `is_enabled` also on their own.
  unfoldable pub create_feature_flag : Actor → Option ℕ → String → Bool → Fields → Exec S Fields
  unfolding get_field
  create_feature_flag actor tid key is_enabled fields = do
    ff ← repo.create tid fields
    log actor (none_or tid) (
        event AuditAction.create (item (some ff) "id")
          (field "key" (text key) (field "is_enabled" (flag is_enabled) end)))
    store (flag_key (id_text tid) key) (if is_enabled then "True" else "False")
    pure ff

  abbrev pub from_repo : Option ℕ → String → Option Fields → Exec S (Option Fields)
  from_repo tid key (some ff) = pure (some ff)
  from_repo tid key none = repo.get_by_key tid key

  -- A cached value that is no dictionary, such as the texts that this service stores, is not used.
  unfoldable pub get_feature_by_key : Option ℕ → String → Exec S (Option Fields)
  get_feature_by_key tid key = elim cache [
    | none ↦ repo.get_by_key tid key
    | some c ↦ do val ← c.get (flag_key (id_text tid) key); from_repo tid key (cached_flag val)
  ]

  abbrev pub context : Option UserId → Option Fields → FeatureFlagContext
  context uid custom = record { user_id = uid; custom = elim custom [ none ↦ end | some fs ↦ fs ] }

  unfoldable pub evaluate_stored : Fields → Option UserId → Option Fields → Result (Value × Bool)
  unfolding flag_of evaluate
  evaluate_stored ff uid custom = bind (flag_of ff) λ f. evaluate hash f (context uid custom)

  abbrev enabled_in : Option Fields → Option UserId → Option Fields → Result Bool
  enabled_in none uid custom = ok false
  enabled_in (some ff) uid custom =
      if truthy (dict ff) then bind (evaluate_stored ff uid custom) (λ (v, b). ok b) else ok false

  unfoldable pub is_feature_enabled :
      Option ℕ → String → Option UserId → Option Fields → Exec S Bool
  unfolding get_feature_by_key evaluate_stored
  is_feature_enabled tid key uid custom = do
    found ← get_feature_by_key tid key
    lift (enabled_in found uid custom)

  abbrev value_in : Option Fields → Option UserId → Option Fields → Result Value
  value_in none uid custom = ok nul
  value_in (some ff) uid custom =
      if truthy (dict ff) then bind (evaluate_stored ff uid custom) (λ (v, b). ok v) else ok nul

  unfoldable pub get_feature_value :
      Option ℕ → String → Option UserId → Option Fields → Exec S Value
  unfolding get_feature_by_key evaluate_stored
  get_feature_value tid key uid custom = do
    found ← get_feature_by_key tid key
    lift (value_in found uid custom)

  unfoldable pub list_feature_flags : Option ℕ → ℕ → ℕ → Exec S (List Fields)
  list_feature_flags tid limit offset = repo.list tid limit offset

  unfoldable pub update_feature_flag : Actor → ℕ → Fields → Exec S Fields
  unfolding get_field str_of
  update_feature_flag actor id fields = do
    ff ← repo.update id fields
    log actor (item (some ff) "tenant_id") (
        event AuditAction.update (num (pos id))
          (field "id" (num (pos id)) (field "fields" (dict fields) end)))
    store (flag_key (str_of py (item (some ff) "tenant_id")) (str_of py (item (some ff) "key")))
        (str_of py (item (some ff) "is_enabled"))
    pure ff

  abbrev store_deleted : Option Fields → Exec S (Unit {0})
  store_deleted none = pure tt
  store_deleted (some ff) =
      if truthy (dict ff)
      then store
          (flag_key (str_of py (item (some ff) "tenant_id")) (str_of py (item (some ff) "key")))
          "False"
      else pure tt

  unfoldable pub delete_feature_flag : Actor → ℕ → Exec S (Unit {0})
  unfolding get_field str_of
  delete_feature_flag actor id = do
    ff ← repo.get_by_id id
    repo.delete id
    log actor (item ff "tenant_id") (
        event AuditAction.delete (num (pos id))
          (field "id" (num (pos id)) (field "key" (item ff "key") end)))
    store_deleted ff
