-- ===== src/Routers/Permissions/Sets.antt =====
-- What a role has after all its permissions were set.
use clean_architecture_saas.Prelude.{ℕ, String, Bool, ◌≡◌, Option, List, keep, map}
use clean_architecture_saas.Python.Exec.{Exec, ok}
use clean_architecture_saas.Python.Preserves.{Preserves}
use clean_architecture_saas.Domain.Audit.{AuditRepository}
use clean_architecture_saas.Domain.Audit.Beside.{Logs}
use clean_architecture_saas.Domain.User.{User}
use clean_architecture_saas.Cache.Client.{CacheClient}
use clean_architecture_saas.Db.Table.{Table, Documented}
use clean_architecture_saas.Permissions.Repository.{
  Named, Described, Link, RolePermissionRepository, sql_repository, holds_id, all_described, one_of,
  get_permissions_by_names,
}
use clean_architecture_saas.Permissions.Repository.Sets.{InsertsLinks, granted}
use clean_architecture_saas.Users.Repository.{UserRepository}
use clean_architecture_saas.Routers.Asking.{Asking}
use clean_architecture_saas.Routers.Permissions.{
  PermissionActionResponse, managed, role_id, replace_all,
}

module _ {S : Type 0} (roles permissions : Table S Named) (links : Table S Link)
    (insert_links : List Link → Exec S (Unit {0})) (accounts : Table S User) (rows : S → List Link)
    (documented : Documented links rows) (named : S → List Named)
    (known : (p : Named → Bool) (s : S) → permissions.select p s ≡ (ok (keep p (named s)), s))
    (inserts : InsertsLinks insert_links rows) (users : UserRepository S)
    (audit : Option (AuditRepository S)) (cache : CacheClient S)
    (reads : (P : List Link → Type 0) (n : ℕ) → Preserves (λ s. P (rows s)) (users.get_by_id n))
    (logs : (P : List Link → Type 0) → Logs (λ s. P (rows s)) audit) where
  abbrev repo : RolePermissionRepository S
  repo = sql_repository roles permissions links insert_links accounts

  -- What the table holds of the role: exactly the given ids.
  abbrev Holds : ℕ → List ℕ → List Link → Type 0
  Holds id ps ls = (p : ℕ) → granted ls id p ≡ holds_id ps p

  abbrev Stays : ℕ → List ℕ → S → Type 0
  Stays id ps s = Holds id ps (rows s)

  -- The stored permissions that have one of the names; the role now has exactly their ids.
  pub record Replaced (names : List String) (id : ℕ) (at after : S) : Type 0 where
    pub fetched : List Described
    pub answer : (repo.get_permissions_by_names names at).0 ≡ ok fetched
    pub fetched_lem : all_described (keep (λ p. one_of names p.name) (named at)) ≡ ok fetched
    pub exact : (p : ℕ) → granted (rows after) id p ≡ holds_id (map (λ d. d.id) fetched) p

  abbrev put_all : String → List String → ℕ → Asking → Exec S PermissionActionResponse
  put_all role names id a = replace_all repo users audit cache role names id a

  -- What is known of a role whose permissions were all set: `id` belongs to the row of its name, or
  -- to the one that is created, and the permissions were read just after.
  pub record RoleSet (role : String) (names : List String) (a : Asking) (before after : S)
      : Type 0 where
    pub stored : Option Named
    pub id : ℕ
    pub found :
        (repo.get_role_by_name role
          (managed repo users audit cache "manage_permissions" a before).1).0
        ≡ ok stored
    pub identified :
        (role_id repo users audit cache role stored
          (repo.get_role_by_name role
            (managed repo users audit cache "manage_permissions" a before).1).1).0
        ≡ ok id
    pub now_has :
        Replaced names id
          (role_id repo users audit cache role stored
            (repo.get_role_by_name role
              (managed repo users audit cache "manage_permissions" a before).1).1).1
          after
