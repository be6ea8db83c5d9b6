-- ===== src/Access/Permissions.antt =====
-- deps/auth.py: `require_permission` and `require_any_permission`; routers/users.py:
-- `_check_user_access`. Metrics are left out.
pub mod Isolation
use clean_architecture_saas.Prelude.{
  String, Bool, true, false, ◌||◌, Option, none, some, List, [], ◌∷◌, any, ◌==◌, if◌then◌else◌,
}
use clean_architecture_saas.Python.Exec.{
  value_error, http, Result, ok, raised, Exec, pure, raise, lift, ◌>>=◌,
}
use clean_architecture_saas.Python.Int.{ℤ, pos, negsuc, eq_ℤ}
use clean_architecture_saas.Python.Text.{parse_int}
use clean_architecture_saas.Python.Substring.{contains}
use clean_architecture_saas.Domain.Auth.{TokenClaims}
use clean_architecture_saas.Domain.User.{User}
use clean_architecture_saas.Users.Repository.{UserRepository}

abbrev pub member : String → List String → Bool
member x xs = any (λ y. y == x) xs

unfoldable pub require_permission : String → Option TokenClaims → List String → Result Bool
require_permission name none perms = raised (http 401 "Not authenticated")
require_permission name (some claims) perms =
    if member name perms then ok true else raised (http 403 "Forbidden")

-- The loop over the names.
unfoldable pub any_of : List String → List String → Result Bool
any_of [] perms = raised (http 403 "Forbidden")
any_of (name ∷ names) perms = if member name perms then ok true else any_of names perms

unfoldable pub require_any_permission : List String → Option TokenClaims → List String → Result Bool
unfolding any_of
require_any_permission names none perms = raised (http 401 "Not authenticated")
require_any_permission names (some claims) perms = any_of names perms

-- `int(s)`
abbrev pub int_or_raise : String → Result ℤ
int_or_raise s = elim (parse_int s) [
  | none ↦ raised (value_error "invalid literal for int()")
  | some n ↦ ok n
]

-- `user_repo.get_by_id(n)`; no row has an id below zero.
abbrev pub user_at : {S : Type 0} → UserRepository S → ℤ → Exec S (Option User)
user_at repo (pos n) = repo.get_by_id n
user_at repo (negsuc n) = pure none

unfoldable pub reaches_all : List String → Bool
reaches_all perms =
    any (λ p. contains "all_users" p || contains "all_sessions" p || contains "all_tenants" p) perms

abbrev pub same_tenant : Option User → Option ℤ → Result (Unit {0})
same_tenant none tid = raised (http 404 "User not found")
same_tenant (some u) none = raised (http 403 "No tenant context")
same_tenant (some u) (some tid) =
    if eq_ℤ (pos u.tenant_id) tid
    then ok tt
    else raised (http 403 "Cannot access users from other tenants")

module _ {S : Type 0} (repo : UserRepository S) where
  unfoldable pub check_user_access : ℤ → TokenClaims → List String → Bool → Exec S (Unit {0})
  unfolding reaches_all
  check_user_access user_id claims perms allow_self = do
    current_id ← lift (int_or_raise claims.subject)
    if eq_ℤ user_id current_id
        then (if allow_self
            then pure tt
            else raise (http 403 "Cannot perform this operation on yourself"))
        else if reaches_all perms
        then pure tt
        else (do target ← user_at repo user_id; lift (same_tenant target claims.tenant_id))
