-- ===== src/Users/Repository.antt =====
-- infrastructure/repositories/users_repository.py, over the table of a session, and the port in
-- ports/repositories/user.py. A row of `UserModel` has the fields of `User`.
pub mod Laws
use mathlib.Core.Option
use clean_architecture_saas.Prelude.{
  ℕ, String, Bool, true, false, ◌||◌, ◌&&◌, Option, none, some, List, map, ◌==◌, nat_eq,
  if◌then◌else◌, first,
}
use clean_architecture_saas.Python.Exec.{failure, Exec, pure, raise, ◌>>=◌, ◌>>◌}
use clean_architecture_saas.Python.Int.{pos, negsuc}
use clean_architecture_saas.Python.Value.{Value, text, flag, num, moment, nul, Fields, end, field}
use clean_architecture_saas.Domain.User.{User, post_init}
use clean_architecture_saas.Db.Table.{Table, same_id}

-- What the services and the routers ask of a repository of users.
pub record UserRepository (S : Type 0) : Type 0 where
  pub create : User → Exec S User
  pub get_by_email : ℕ → String → Exec S (Option User)
  pub get_by_email_global : String → Exec S (Option User)
  pub get_by_id : ℕ → Exec S (Option User)
  pub list_by_tenant : ℕ → Exec S (List User)
  pub delete : ℕ → Exec S (Unit {0})
  pub update : ℕ → Fields → Exec S (Option User)
  pub set_password : ℕ → String → Exec S (Unit {0})
  pub update_last_login : ℕ → ℕ → Exec S (Unit {0})
  pub set_email : ℕ → String → Exec S (Unit {0})

abbrev pub is_allowed : String → Bool
is_allowed k =
    k == "first_name"
    || k == "last_name"
    || k == "role"
    || k == "is_active"
    || k == "email_verified"
    || k == "audit_enabled"

-- `{k: v for k, v in fields.items() if k in allowed}`
unfoldable pub allowed_fields : Fields → Fields
allowed_fields end = end
allowed_fields (field k v fs) =
    let rest = allowed_fields fs in if is_allowed k then field k v rest else rest

-- One column of `.values(**update_fields)`, as what it does to a row. The names may be NULL, the
-- other texts may not, the three flags take Booleans, of which `is_active` may be NULL, and the ids
-- take natural numbers. The database refuses any other value.
unfoldable pub set_column : String → Value → Option (User → User)
set_column k v = elim v [
  | text s ↦
      if k == "first_name"
      then some (λ u. record u { first_name = some s })
      else if k == "last_name"
      then some (λ u. record u { last_name = some s })
      else if k == "role"
      then some (λ u. record u { role = s })
      else if k == "email"
      then some (λ u. record u { email = s })
      else if k == "hashed_password"
      then some (λ u. record u { hashed_password = s })
      else none
  | nul ↦
      if k == "first_name"
      then some (λ u. record u { first_name = none })
      else if k == "last_name"
      then some (λ u. record u { last_name = none })
      else if k == "is_active"
      then some (λ u. record u { is_active = none })
      else if k == "last_login_at"
      then some (λ u. record u { last_login_at = none })
      else if k == "created_at"
      then some (λ u. record u { created_at = none })
      else if k == "updated_at"
      then some (λ u. record u { updated_at = none })
      else none
  | flag b ↦
      if k == "is_active"
      then some (λ u. record u { is_active = some b })
      else if k == "email_verified"
      then some (λ u. record u { email_verified = b })
      else if k == "audit_enabled"
      then some (λ u. record u { audit_enabled = b })
      else none
  | num n ↦ (elim n [
    | pos i ↦
        if k == "id"
        then some (λ u. record u { id = some i })
        else if k == "tenant_id"
        then some (λ u. record u { tenant_id = i })
        else none
    | negsuc i ↦ none
  ])
  | moment t ↦
      if k == "last_login_at"
      then some (λ u. record u { last_login_at = some t })
      else if k == "created_at"
      then some (λ u. record u { created_at = some t })
      else if k == "updated_at"
      then some (λ u. record u { updated_at = some t })
      else none
  | _ ↦ none
]

abbrev pub compose : Option (User → User) → Option (User → User) → Option (User → User)
compose (some f) (some g) = some (λ u. g (f u))
compose (some f) none = none
compose none o = none

unfoldable pub set_columns : Fields → Option (User → User)
unfolding set_column
set_columns end = some (λ u. u)
set_columns (field k v fs) = compose (set_column k v) (set_columns fs)

abbrev pub has_id : ℕ → User → Bool
has_id n u = same_id u.id n

abbrev pub has_email : String → User → Bool
has_email email u = u.email == email

abbrev pub in_tenant : ℕ → User → Bool
in_tenant tid u = nat_eq u.tenant_id tid

-- `DomainUser(…)` of the columns of a row, with `datetime.now()` at `now`.
abbrev pub of_row : ℕ → User → User
of_row now u = post_init now u

module _ {S : Type 0} (table : Table S User) (now : ℕ) where
  open table use {select, add, commit}

  -- The id and the timestamps are the database's.
  unfoldable pub create : User → Exec S User
  create u = do
    row ← add (record u { id = none; created_at = none; updated_at = none })
    commit
    pure (of_row now row)

  unfoldable pub get_by_email : ℕ → String → Exec S (Option User)
  get_by_email tid email = do
    rows ← select (λ u. in_tenant tid u && has_email email u)
    pure (Option.map (of_row now) (first rows))

  unfoldable pub get_by_email_global : String → Exec S (Option User)
  get_by_email_global email = do
    rows ← select (has_email email)
    pure (Option.map (of_row now) (first rows))

  unfoldable pub get_by_id : ℕ → Exec S (Option User)
  get_by_id id = do rows ← select (has_id id); pure (Option.map (of_row now) (first rows))

  unfoldable pub list_by_tenant : ℕ → Exec S (List User)
  list_by_tenant tid = do rows ← select (in_tenant tid); pure (map (of_row now) rows)

  unfoldable pub delete : ℕ → Exec S (Unit {0})
  delete id = do table.delete (has_id id); pure tt

  unfoldable pub update_columns : ℕ → Option (User → User) → Exec S (Option User)
  unfolding get_by_id
  update_columns id none = raise (failure "refused by the database")
  update_columns id (some f) = do
    table.update (has_id id) (λ u. record (f u) { updated_at = some now })
    get_by_id id

  abbrev pub update_allowed : ℕ → Fields → Exec S (Option User)
  update_allowed id end = get_by_id id
  update_allowed id (field k v fs) = update_columns id (set_columns (field k v fs))

  unfoldable pub update : ℕ → Fields → Exec S (Option User)
  unfolding update_columns set_columns allowed_fields
  update id fields = update_allowed id (allowed_fields fields)

  unfoldable pub set_password : ℕ → String → Exec S (Unit {0})
  set_password id hashed =
      table.update (has_id id) (λ u. record u { hashed_password = hashed; updated_at = some now })

  unfoldable pub update_last_login : ℕ → ℕ → Exec S (Unit {0})
  update_last_login id when =
      table.update (has_id id) (λ u. record u { last_login_at = some when; updated_at = some now })

  unfoldable pub set_email : ℕ → String → Exec S (Unit {0})
  set_email id email =
      table.update (has_id id)
        (λ u. record u { email = email; email_verified = true; updated_at = some now })

  abbrev pub sql_users : UserRepository S
  sql_users = record {
    create = create;
    get_by_email = get_by_email;
    get_by_email_global = get_by_email_global;
    get_by_id = get_by_id;
    list_by_tenant = list_by_tenant;
    delete = delete;
    update = update;
    set_password = set_password;
    update_last_login = update_last_login;
    set_email = set_email;
  }
