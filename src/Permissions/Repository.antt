-- ===== src/Permissions/Repository.antt =====
-- infrastructure/repositories/permissions_repository.py, over the tables of a session. A join is the
-- rows that its conditions put together. An insert into the table of associations is one statement
-- for all its rows.
pub mod Refines
pub mod Sets
use mathlib.Core.Option
use clean_architecture_saas.Prelude.{
  ℕ, String, Bool, true, false, not, ◌&&◌, ◌||◌, Option, none, some, List, [], ◌∷◌, ◌++◌, map, keep,
  first, ◌==◌, nat_eq, if◌then◌else◌,
}
use clean_architecture_saas.Python.Exec.{
  failure, Result, ok, raised, bind, Exec, pure, lift, ◌>>=◌, ◌>>◌,
}
use clean_architecture_saas.Domain.User.{User}
use clean_architecture_saas.Db.Table.{Table, same_id}
use clean_architecture_saas.Permissions.{RolePermissions}

-- A row of `RoleModel` or of `PermissionModel`, which have the same columns.
pub record Named : Type 0 where
  pub id : Option ℕ
  pub name : String
  pub description : Option String

-- The dictionary that is returned.
pub record Described : Type 0 where
  pub id : ℕ
  pub name : String
  pub description : Option String

-- A row of `role_permissions`
pub record Link : Type 0 where
  pub role_id : ℕ
  pub permission_id : ℕ

-- What the router about permissions asks of a repository.
pub record RolePermissionRepository (S : Type 0) : Type 0 where
  pub create_role : String → Option String → Exec S Described
  pub get_role_by_name : String → Exec S (Option Named)
  pub get_permission_by_name : String → Exec S (Option Named)
  pub get_permissions_by_names : List String → Exec S (List Described)
  pub list_permissions : Exec S (List Described)
  pub list_role_permissions : ℕ → Exec S (List Described)
  pub clear_role_permissions : ℕ → Exec S (Unit {0})
  pub assign_permission_to_role : ℕ → ℕ → Exec S (Unit {0})
  pub bulk_assign_permissions_to_role : ℕ → List ℕ → Exec S (Unit {0})
  pub remove_permission_from_role : ℕ → ℕ → Exec S (Unit {0})

-- `int(m.id)`
abbrev pub row_id : Named → Result ℕ
row_id r = elim r.id [ none ↦ raised (failure "int() of None") | some n ↦ ok n ]

abbrev pub described : Named → Result Described
described r =
    bind (row_id r) λ n. ok (record { id = n; name = r.name; description = r.description })

unfoldable pub all_described : List Named → Result (List Described)
all_described [] = ok []
all_described (r ∷ rows) =
    let rest = all_described rows in bind (described r) (λ d. bind rest (λ ds. ok (d ∷ ds)))

unfoldable pub one_of : List String → String → Bool
one_of [] k = false
one_of (name ∷ names) k = name == k || one_of names k

unfoldable pub holds_id : List ℕ → ℕ → Bool
holds_id [] p = false
holds_id (n ∷ ns) p = nat_eq n p || holds_id ns p

abbrev pub in_role : ℕ → Link → Bool
in_role role l = nat_eq l.role_id role

abbrev pub same_link : ℕ → ℕ → Link → Bool
same_link role permission l = nat_eq l.role_id role && nat_eq l.permission_id permission

-- The permissions of a list of associations.
unfoldable pub joined : List Named → List Link → List Named
joined permissions [] = []
joined permissions (l ∷ links) =
    keep (λ p. same_id p.id l.permission_id) permissions ++ joined permissions links

-- The associations of the roles that are listed.
unfoldable pub links_of : List Named → List Link → List Link
links_of roles [] = []
links_of roles (l ∷ links) =
    map (λ r. l) (keep (λ r. same_id r.id l.role_id) roles) ++ links_of roles links

abbrev pub ids : List Link → List ℕ
ids links = map (λ l. l.permission_id) links

abbrev pub link : ℕ → ℕ → Link
link role permission = record { role_id = role; permission_id = permission }

module _ {S : Type 0} (roles permissions : Table S Named) (links : Table S Link)
    (insert_links : List Link → Exec S (Unit {0})) (users : Table S User) where
  abbrev named : String → Option String → Named
  named name description = record { id = none; name = name; description = description }

  unfoldable pub create_role : String → Option String → Exec S Described
  create_role name description = do m ← roles.add (named name description); lift (described m)

  unfoldable pub create_permission : String → Option String → Exec S Described
  create_permission name description = do
    m ← permissions.add (named name description)
    lift (described m)

  unfoldable pub get_role_by_name : String → Exec S (Option Named)
  get_role_by_name name = do rows ← roles.select (λ r. r.name == name); pure (first rows)

  unfoldable pub get_permission_by_name : String → Exec S (Option Named)
  get_permission_by_name name = do
    rows ← permissions.select (λ p. p.name == name)
    pure (first rows)

  unfoldable pub get_permissions_by_names : List String → Exec S (List Described)
  unfolding all_described one_of
  get_permissions_by_names [] = pure []
  get_permissions_by_names (name ∷ names) = do
    rows ← permissions.select (λ p. one_of (name ∷ names) p.name)
    lift (all_described rows)

  unfoldable pub list_permissions : Exec S (List Described)
  unfolding all_described
  list_permissions = do rows ← permissions.select (λ p. true); lift (all_described rows)

  unfoldable pub list_role_permissions : ℕ → Exec S (List Described)
  unfolding all_described joined
  list_role_permissions role = do
    found ← links.select (in_role role)
    rows ← permissions.select (λ p. true)
    lift (all_described (joined rows found))

  unfoldable pub clear_role_permissions : ℕ → Exec S (Unit {0})
  clear_role_permissions role = do links.delete (in_role role); pure tt

  abbrev pub assign_new : ℕ → ℕ → Option Link → Exec S (Unit {0})
  assign_new role permission (some l) = pure tt
  assign_new role permission none = insert_links (link role permission ∷ [])

  unfoldable pub assign_permission_to_role : ℕ → ℕ → Exec S (Unit {0})
  assign_permission_to_role role permission = do
    found ← links.select (same_link role permission)
    assign_new role permission (first found)

  -- The ids that are not in the role yet.
  abbrev pub missing : List ℕ → List ℕ → List ℕ
  missing existing given = keep (λ p. not (holds_id existing p)) given

  abbrev pub insert_missing : ℕ → List ℕ → Exec S (Unit {0})
  insert_missing role [] = pure tt
  insert_missing role (p ∷ ps) = insert_links (map (link role) (p ∷ ps))

  unfoldable pub bulk_assign_permissions_to_role : ℕ → List ℕ → Exec S (Unit {0})
  unfolding holds_id
  bulk_assign_permissions_to_role role [] = pure tt
  bulk_assign_permissions_to_role role (p ∷ ps) = do
    found ← links.select (in_role role)
    insert_missing role (missing (ids found) (p ∷ ps))

  unfoldable pub remove_permission_from_role : ℕ → ℕ → Exec S (Unit {0})
  remove_permission_from_role role permission = do links.delete (same_link role permission); pure tt

  unfoldable pub get_role_permissions : String → Exec S (List String)
  unfolding joined links_of
  get_role_permissions role = if role == "" then pure [] else (do
    found ← links.select (λ l. true)
    rows ← permissions.select (λ p. true)
    named_so ← roles.select (λ r. r.name == role)
    pure (map (λ p. p.name) (joined rows (links_of named_so found))))

  abbrev role_of : Option User → String
  role_of none = ""
  role_of (some u) = u.role

  unfoldable pub list_user_permissions : ℕ → Exec S (List String)
  unfolding get_role_permissions
  list_user_permissions id = do
    rows ← users.select (λ u. same_id u.id id)
    get_role_permissions (role_of (first rows))

  abbrev or_added : Table S Named → String → Option Named → Exec S Named
  or_added table name (some r) = pure r
  or_added table name none = table.add (named name none)

  -- The loop over the names.
  unfoldable pub associate : ℕ → List String → Exec S (Unit {0})
  unfolding get_permission_by_name
  associate role [] = pure tt
  associate role (name ∷ names) = do
    found ← get_permission_by_name name
    p ← or_added permissions name found
    id ← lift (row_id p)
    insert_links (link role id ∷ [])
    associate role names

  unfoldable pub set_role_permissions : String → List String → Exec S (Unit {0})
  unfolding get_role_by_name associate
  set_role_permissions role names = do
    found ← get_role_by_name role
    r ← or_added roles role found
    id ← lift (row_id r)
    links.delete (in_role id)
    associate id names

  abbrev pub sql_permissions : RolePermissions S
  sql_permissions = record {
    get_role_permissions = get_role_permissions;
    list_user_permissions = list_user_permissions;
    set_role_permissions = set_role_permissions;
  }

  abbrev pub sql_repository : RolePermissionRepository S
  sql_repository = record {
    create_role = create_role;
    get_role_by_name = get_role_by_name;
    get_permission_by_name = get_permission_by_name;
    get_permissions_by_names = get_permissions_by_names;
    list_permissions = list_permissions;
    list_role_permissions = list_role_permissions;
    clear_role_permissions = clear_role_permissions;
    assign_permission_to_role = assign_permission_to_role;
    bulk_assign_permissions_to_role = bulk_assign_permissions_to_role;
    remove_permission_from_role = remove_permission_from_role;
  }
