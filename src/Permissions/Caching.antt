-- ===== src/Permissions/Caching.antt =====
-- infrastructure/repositories/caching/permission_caching.py, around any repository of permissions. The
-- handlers only log; a value that is no list of texts raises at once, as its first use would.
pub mod Stale
use clean_architecture_saas.Prelude.{ℕ, String, Option, none, some, List, if◌then◌else◌}
use clean_architecture_saas.Python.Exec.{failure, Exec, pure, raise, attempt, ◌>>=◌, ◌>>◌}
use clean_architecture_saas.Python.Text.{show}
use clean_architecture_saas.Python.Value.{Value, texts, truthy, or_nul}
use clean_architecture_saas.Cache.Client.{CacheClient}
use clean_architecture_saas.Cache.Keys.{◌&◌}
use clean_architecture_saas.Permissions.{RolePermissions}

abbrev pub role_key : String → String
role_key role = "perm:role:" & role

abbrev pub user_key : ℕ → String
user_key id = "perm:user:" & show id

abbrev pub as_names : {S : Type 0} → Value → Exec S (List String)
as_names v = elim v [ texts names ↦ pure names | _ ↦ raise (failure "not a list of names") ]

abbrev pub best_effort : {S : Type 0} → Exec S (Unit {0}) → Exec S (Unit {0})
best_effort m = attempt m (λ e. pure tt)

module _ {S : Type 0} (inner : RolePermissions S) (cache : Option (CacheClient S)) (ttl : ℕ) where
  -- What is found, if it is used; an empty list of a role is not.
  abbrev pub if_truthy : Option Value → Option Value
  if_truthy o = if truthy (or_nul o) then o else none

  abbrev pub missed :
      CacheClient S → String → Exec S (List String) → Option Value → Exec S (List String)
  missed c key read (some v) = as_names v
  missed c key read none = do
    names ← read
    best_effort (c.set key (texts names) (some ttl))
    pure names

  unfoldable pub get_role_permissions : String → Exec S (List String)
  get_role_permissions role = elim cache [
    | none ↦ inner.get_role_permissions role
    | some c ↦ do
      v ← attempt (do w ← c.get (role_key role); pure (if_truthy w)) (λ e. pure none)
      missed c (role_key role) (inner.get_role_permissions role) v
  ]

  unfoldable pub list_user_permissions : ℕ → Exec S (List String)
  list_user_permissions id = elim cache [
    | none ↦ inner.list_user_permissions id
    | some c ↦ do
      v ← attempt (c.get (user_key id)) (λ e. pure none)
      missed c (user_key id) (inner.list_user_permissions id) v
  ]

  -- After a change of the role only its own entry is dropped.
  abbrev pub dropping : {A : Type 0} → String → Exec S A → Exec S A
  dropping role change = do
    res ← change
    (elim cache [ none ↦ pure tt | some c ↦ best_effort (c.delete (role_key role)) ])
    pure res

  unfoldable pub set_role_permissions : String → List String → Exec S (Unit {0})
  set_role_permissions role names = dropping role (inner.set_role_permissions role names)

  -- `add_permission_to_role` and `remove_permission_from_role`, with what the repository below does.
  unfoldable pub add_permission_to_role : {A : Type 0} → String → Exec S A → Exec S A
  add_permission_to_role role change = dropping role change

  unfoldable pub remove_permission_from_role : {A : Type 0} → String → Exec S A → Exec S A
  remove_permission_from_role role change = dropping role change

  abbrev pub caching_permissions : RolePermissions S
  caching_permissions = record {
    get_role_permissions = get_role_permissions;
    list_user_permissions = list_user_permissions;
    set_role_permissions = set_role_permissions;
  }
