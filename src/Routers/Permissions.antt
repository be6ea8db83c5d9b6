-- ===== src/Routers/Permissions.antt =====
-- routers/permissions.py, over any repository of roles and permissions. Logging is left out.
pub mod Sets
use Prim.Native.String
use clean_architecture_saas.Prelude.{
  ℕ, String, Bool, true, false, ◌||◌, Option, none, some, List, [], ◌∷◌, map, if◌then◌else◌,
}
use clean_architecture_saas.Python.Exec.{http, Exec, pure, raise, lift, ◌>>=◌, ◌>>◌}
use clean_architecture_saas.Python.Substring.{contains}
use clean_architecture_saas.Python.Value.{text, texts, Fields, end, field}
use clean_architecture_saas.Domain.Audit.{
  AuditAction, AuditResource, AuditRepository, log_audit_event,
}
use clean_architecture_saas.Access.Permissions.{require_permission}
use clean_architecture_saas.Access.RateLimit.{require_rate_limit}
use clean_architecture_saas.Cache.Client.{CacheClient}
use clean_architecture_saas.Cache.Keys.{◌&◌}
use clean_architecture_saas.Permissions.Repository.{
  Named, Described, RolePermissionRepository, row_id,
}
use clean_architecture_saas.Users.Repository.{UserRepository}
use clean_architecture_saas.Routers.Asking.{Asking, admit, audited}

pub record RolePermissionsResponse : Type 0 where
  pub role : String
  pub permissions : List String

-- The six lists of a dictionary.
pub record Categorized : Type 0 where
  pub user_management : List Described
  pub session_management : List Described
  pub tenant_management : List Described
  pub feature_flags : List Described
  pub permission_management : List Described
  pub audit_monitoring : List Described

pub record AvailablePermissionsResponse : Type 0 where
  pub permissions : List Described
  pub categorized_permissions : Categorized

pub record PermissionActionResponse : Type 0 where
  pub success : Bool
  pub message : String

abbrev about_users : String → Bool
about_users name =
    contains "user" name
    || contains "profile" name
    || contains "password" name
    || contains "email" name

-- One step of the loop, in front of what the later steps append.
abbrev categorize : Described → Categorized → Categorized
categorize p c =
    if about_users p.name
    then record c { user_management = p ∷ c.user_management }
    else if contains "session" p.name
    then record c { session_management = p ∷ c.session_management }
    else if contains "tenant" p.name
    then record c { tenant_management = p ∷ c.tenant_management }
    else if contains "feature" p.name
    then record c { feature_flags = p ∷ c.feature_flags }
    else if contains "permission" p.name || contains "role" p.name
    then record c { permission_management = p ∷ c.permission_management }
    else if contains "audit" p.name
    then record c { audit_monitoring = p ∷ c.audit_monitoring }
    else c

unfoldable pub categorized : List Described → Categorized
unfolding contains
categorized [] = record {
  user_management = [];
  session_management = [];
  tenant_management = [];
  feature_flags = [];
  permission_management = [];
  audit_monitoring = [];
}
categorized (p ∷ ps) = categorize p (categorized ps)

abbrev pub done : String → PermissionActionResponse
done message = record { success = true; message = message }

module _ {S : Type 0} (repo : RolePermissionRepository S) (users : UserRepository S)
    (audit : Option (AuditRepository S)) (cache : CacheClient S) where
  abbrev pub managed : String → Asking → Exec S (Unit {0})
  managed name a = admit cache (require_permission name (some a.claims) a.perms) a

  unfoldable pub get_available_permissions : Asking → Exec S AvailablePermissionsResponse
  unfolding require_permission require_rate_limit categorized
  get_available_permissions a = do
    managed "view_permissions" a
    ps ← repo.list_permissions
    pure (record { permissions = ps; categorized_permissions = categorized ps })

  abbrev permissions_of : String → Option Named → Exec S RolePermissionsResponse
  permissions_of role none = raise (http 404 "role not found")
  permissions_of role (some r) = do
    id ← lift (row_id r)
    ps ← repo.list_role_permissions id
    pure (record { role = role; permissions = map (λ p. p.name) ps })

  unfoldable pub get_role_permissions : String → Asking → Exec S RolePermissionsResponse
  unfolding require_permission require_rate_limit
  get_role_permissions role a = do
    managed "view_permissions" a
    r ← repo.get_role_by_name role
    permissions_of role r

  -- The id of the role, which is created if it is not there.
  abbrev pub role_id : String → Option Named → Exec S ℕ
  role_id role (some r) = lift (row_id r)
  role_id role none = do created ← repo.create_role role none; pure created.id

  abbrev pub noted : Asking → AuditAction → String → Fields → ℕ → Exec S (Unit {0})
  noted a action role fields id =
      audited users audit a action AuditResource.permission (field "role" (text role) fields)
        (some id)

  abbrev pub all_set : String → List String → ℕ → Asking → Exec S PermissionActionResponse
  all_set role names id a = do
    noted a AuditAction.update role
        (field "permissions" (texts names) (field "action" (text "set_all") end)) id
    pure (done "permissions updated successfully")

  -- A name that is no permission is passed over.
  abbrev pub replace_all : String → List String → ℕ → Asking → Exec S PermissionActionResponse
  replace_all role names id a = do
    ps ← repo.get_permissions_by_names names
    repo.clear_role_permissions id
    repo.bulk_assign_permissions_to_role id (map (λ p. p.id) ps)
    all_set role names id a

  unfoldable pub set_role_permissions :
      String → List String → Asking → Exec S PermissionActionResponse
  unfolding require_permission require_rate_limit log_audit_event
  set_role_permissions role names a = do
    managed "manage_permissions" a
    r ← repo.get_role_by_name role
    id ← role_id role r
    replace_all role names id a

  abbrev add_to : String → String → ℕ → Asking → Option Named → Exec S PermissionActionResponse
  add_to role permission id a none =
      raise (http 404 ("permission '" & (permission & "' not found in system")))
  add_to role permission id a (some p) = do
    perm_id ← lift (row_id p)
    repo.assign_permission_to_role id perm_id
    noted a AuditAction.create role
        (field "permission" (text permission) (field "action" (text "add_permission") end)) id
    pure (done ("Permission '" & (permission & ("' added to role '" & (role & "'")))))

  unfoldable pub add_permission_to_role : String → String → Asking → Exec S PermissionActionResponse
  unfolding require_permission require_rate_limit log_audit_event
  add_permission_to_role role permission a = do
    managed "manage_permissions" a
    r ← repo.get_role_by_name role
    id ← role_id role r
    p ← repo.get_permission_by_name permission
    add_to role permission id a p

  abbrev remove_from :
      String → String → Named → Asking → Option Named → Exec S PermissionActionResponse
  remove_from role permission r a none = raise (http 404 "permission not found")
  remove_from role permission r a (some p) = do
    id ← lift (row_id r)
    perm_id ← lift (row_id p)
    repo.remove_permission_from_role id perm_id
    noted a AuditAction.delete role
        (field "permission" (text permission) (field "action" (text "remove_permission") end)) id
    pure (done ("Permission '" & (permission & ("' removed from role '" & (role & "'")))))

  abbrev remove_if_there : String → String → Asking → Option Named → Exec S PermissionActionResponse
  remove_if_there role permission a none = raise (http 404 "role not found")
  remove_if_there role permission a (some r) = do
    p ← repo.get_permission_by_name permission
    remove_from role permission r a p

  unfoldable pub remove_permission_from_role :
      String → String → Asking → Exec S PermissionActionResponse
  unfolding require_permission require_rate_limit log_audit_event
  remove_permission_from_role role permission a = do
    managed "manage_permissions" a
    r ← repo.get_role_by_name role
    remove_if_there role permission a r
