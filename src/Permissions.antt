-- ===== src/Permissions.antt =====
-- Roles, permissions and who has which: domain/permission.py, and its repositories below.
pub mod Caching
pub mod Repository
use clean_architecture_saas.Prelude.{ℕ, String, List, [], ◌==◌, if◌then◌else◌}
use clean_architecture_saas.Python.Exec.{Exec, pure}

-- What is asked of a repository of permissions when a request is checked, and the change of a role.
pub record RolePermissions (S : Type 0) : Type 0 where
  pub get_role_permissions : String → Exec S (List String)
  pub list_user_permissions : ℕ → Exec S (List String)
  pub set_role_permissions : String → List String → Exec S (Unit {0})

module _ {S : Type 0} (port : RolePermissions S) where
  unfoldable pub evaluate_for_role : String → Exec S (List String)
  evaluate_for_role role = if role == "" then pure [] else port.get_role_permissions role

  unfoldable pub evaluate_for_user : ℕ → Exec S (List String)
  evaluate_for_user id = port.list_user_permissions id
