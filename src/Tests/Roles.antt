-- ===== src/Tests/Roles.antt =====
-- Roles and permissions, and pages of flags, on small worlds.
use clean_architecture_saas.Prelude.{ℕ, String, ◌≡◌, refl, inr, none, some, List, [], ◌∷◌, ◌++◌}
use clean_architecture_saas.Python.Dict
use clean_architecture_saas.Python.Exec.{Exec, ok, pure}
use clean_architecture_saas.Python.Text.{show}
use clean_architecture_saas.Python.Value.{text, texts, list, Fields, end, field}
use clean_architecture_saas.Cache.Documented.{Works-in_memory}
use clean_architecture_saas.Cache.InMemory.{Mem, in_memory, set}
use clean_architecture_saas.Cache.InMemory.Laws.{view}
use clean_architecture_saas.Db.Table.{Table}
use clean_architecture_saas.Db.ListTable.{list_table, table_at, Documented-list_table}
use clean_architecture_saas.Features.{FeatureFlagRepository}
use clean_architecture_saas.Features.Caching.{list_all, list_key, flags}
use clean_architecture_saas.Features.Caching.Pages.{one_page}
use clean_architecture_saas.Permissions.{RolePermissions}
use clean_architecture_saas.Permissions.Caching.{
  role_key, user_key, set_role_permissions, list_user_permissions, get_role_permissions,
}
use clean_architecture_saas.Permissions.Caching.Stale.{permissions_stale}
use clean_architecture_saas.Permissions.Repository.{
  Named, sql_repository, Link, link, clear_role_permissions, bulk_assign_permissions_to_role,
  holds_id, remove_permission_from_role,
}
use clean_architecture_saas.Permissions.Repository.Sets.{
  InsertsLinks, granted, Command, clear, remove, bulk_assign, meant_all,
}
use clean_architecture_saas.Permissions.Repository.Refines.{perform_all, performs_meant}
use clean_architecture_saas.Cache.Client.{CacheClient}
use clean_architecture_saas.Python.Int.{pos}
use clean_architecture_saas.Users.Repository.{UserRepository}
use clean_architecture_saas.Routers.Asking.{Asking}
use clean_architecture_saas.Routers.Permissions
use clean_architecture_saas.Routers.Permissions.{PermissionActionResponse}
use clean_architecture_saas.Tests.Routers.{caller}
use clean_architecture_saas.Tests.World.{claims_of, empty_cache, py}

-- Only the associations are stored.
abbrev nothing : {R : Type 0} → Table (List Link) R
nothing = table_at (λ s. []) (λ rs s. s)

abbrev insert_links : List Link → Exec (List Link) (Unit {0})
insert_links ls s = (ok tt, s ++ ls)

InsertsLinks-insert_links : InsertsLinks insert_links (λ s. s)
InsertsLinks-insert_links = record { insert_lem = λ ls s. inr (refl, refl) }

abbrev changes : List Command
changes = bulk_assign 1 (5 ∷ 6 ∷ 7 ∷ []) ∷ remove 1 6 ∷ clear 2 ∷ []

abbrev before : List Link
before = link 1 5 ∷ link 2 5 ∷ []

abbrev change_all : Exec (List Link) (Unit {0})
change_all =
    perform_all nothing nothing list_table insert_links nothing (λ s. s) Documented-list_table
      InsertsLinks-insert_links changes

succeeds : (change_all before).0 ≡ ok tt
unfolding bulk_assign_permissions_to_role remove_permission_from_role clear_role_permissions
    holds_id
succeeds = refl

performs_meant_example : granted (change_all before).1 ≡ meant_all changes (granted before)
performs_meant_example =
    performs_meant nothing nothing list_table insert_links nothing (λ s. s) Documented-list_table
      InsertsLinks-insert_links changes before succeeds

abbrev roles : RolePermissions Mem
roles = record {
  get_role_permissions = λ role. pure ("read" ∷ []);
  list_user_permissions = λ id. pure ("read" ∷ []);
  set_role_permissions = λ role names. pure tt;
}

abbrev kept : List String
kept = "read" ∷ "delete" ∷ []

abbrev asked_once : Mem
asked_once = (set (user_key 1) (texts kept) none empty_cache).1

is_cached : view asked_once (user_key 1) ≡ some (texts kept)
unfolding set view Dict.get Dict.put show
is_cached = refl

permissions_stale_example :
    let after =
      (set_role_permissions roles (some in_memory) 300 "member" ("read" ∷ []) asked_once).1 in
    ((list_user_permissions roles (some in_memory) 300 1 after).0 ≡ ok kept)
    × ((get_role_permissions roles (some in_memory) 300 "member" after).0
        ≡ (roles.get_role_permissions "member" (in_memory.get (role_key "member") after).1).0)
permissions_stale_example =
    permissions_stale roles in_memory view Works-in_memory 300 "member" ("read" ∷ []) kept 1
      asked_once refl refl is_cached

abbrev beta : Fields
beta = field "key" (text "beta") end

abbrev repository : FeatureFlagRepository Mem
repository = record {
  create = λ tid fields. pure beta;
  get_by_key = λ tid key. pure (some beta);
  get_by_id = λ id. pure (some beta);
  update = λ id fields. pure beta;
  delete = λ id. pure tt;
  list = λ tid limit offset. pure (beta ∷ []);
}

not_listed : view empty_cache (list_key "None") ≡ none
unfolding view Dict.get
not_listed = refl

one_page_example :
    (list_all py repository
      (some in_memory)
      60
      none
      50
      50
      (list_all py repository (some in_memory) 60 none 50 0 empty_cache).1).0
    ≡ ok (list (flags (beta ∷ [])))
one_page_example =
    one_page py repository in_memory view Works-in_memory 60 none 50 0 50 50 (beta ∷ []) empty_cache
      refl not_listed refl

-- One role and two permissions beside the associations.
abbrev fixed : List Named → Table (List Link) Named
fixed rows = table_at (λ s. rows) (λ rs s. s)

abbrev named : ℕ → String → Named
named id name = record { id = some id; name = name; description = none }

abbrev role_rows : Table (List Link) Named
role_rows = fixed (named 1 "member" ∷ [])

abbrev permission_rows : Table (List Link) Named
permission_rows = fixed (named 5 "read" ∷ named 6 "delete" ∷ [])

abbrev two_permissions : List Link → List Named
two_permissions s = named 5 "read" ∷ named 6 "delete" ∷ []

abbrev no_users : UserRepository (List Link)
no_users = record {
  create = λ u. pure u;
  get_by_email = λ tid email. pure none;
  get_by_email_global = λ email. pure none;
  get_by_id = λ n. pure none;
  list_by_tenant = λ tid. pure [];
  delete = λ n. pure tt;
  update = λ n fs. pure none;
  set_password = λ n h. pure tt;
  update_last_login = λ n t. pure tt;
  set_email = λ n e. pure tt;
}

abbrev no_cache : CacheClient (List Link)
no_cache = record {
  get = λ k. pure none;
  set = λ k v ex. pure tt;
  incr = λ k. pure (pos 1);
  expire = λ k n. pure tt;
  delete = λ k. pure tt;
}

abbrev asking : Asking
asking = record {
  caller = caller;
  agent = none;
  claims = claims_of "1";
  perms = "manage_permissions" ∷ [];
}

abbrev set_member : Exec (List Link) PermissionActionResponse
set_member =
    Permissions.set_role_permissions
      (sql_repository role_rows permission_rows list_table insert_links nothing) no_users none
      no_cache "member" ("delete" ∷ "unknown" ∷ []) asking
