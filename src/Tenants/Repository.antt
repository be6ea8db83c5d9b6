-- ===== src/Tenants/Repository.antt =====
-- infrastructure/repositories/tenants_repository.py, over the table of a session, and the port in
-- ports/repositories/tenant.py. A row of `TenantModel` has the fields of `Tenant`.
pub mod Laws
use mathlib.Core.Option
use clean_architecture_saas.Prelude.{
  ℕ, String, Bool, true, false, ◌||◌, Option, none, some, List, map, ◌==◌, if◌then◌else◌, first,
}
use clean_architecture_saas.Python.Exec.{failure, Exec, pure, raise, ◌>>=◌, ◌>>◌}
use clean_architecture_saas.Python.Value.{Value, text, nul, dict, truthy, Fields, end, field}
use clean_architecture_saas.Domain.Tenant.{Tenant, post_init}
use clean_architecture_saas.Db.Table.{Table, same_id}

-- What `TenantService` and the routers ask of a repository of tenants.
pub record TenantRepository (S : Type 0) : Type 0 where
  pub create : Tenant → Exec S Tenant
  pub get_by_id : ℕ → Exec S (Option Tenant)
  pub list_all : Exec S (List Tenant)
  pub get_by_slug : String → Exec S (Option Tenant)
  pub update : ℕ → Fields → Exec S (Option Tenant)
  pub delete : ℕ → Exec S (Unit {0})

abbrev is_allowed : String → Bool
is_allowed k =
    k == "name"
    || k == "domain"
    || k == "is_active"
    || k == "status"
    || k == "plan"
    || k == "settings"

-- `{k: v for k, v in fields.items() if k in allowed}`
unfoldable pub allowed_fields : Fields → Fields
allowed_fields end = end
allowed_fields (field k v fs) =
    let rest = allowed_fields fs in if is_allowed k then field k v rest else rest

-- One column of `.values(**update_fields)`, as what it does to a row: a text column takes texts,
-- `domain` also NULL; the database refuses any other value. The model has no column `is_active`.
unfoldable pub set_column : String → Value → Option (Tenant → Tenant)
set_column k v = if k == "settings" then some (λ t. record t { settings = v }) else elim v [
  | text s ↦
      if k == "name"
      then some (λ t. record t { name = s })
      else if k == "domain"
      then some (λ t. record t { domain = some s })
      else if k == "plan"
      then some (λ t. record t { plan = s })
      else if k == "status"
      then some (λ t. record t { status = s })
      else none
  | nul ↦ if k == "domain" then some (λ t. record t { domain = none }) else none
  | _ ↦ none
]

abbrev compose : Option (Tenant → Tenant) → Option (Tenant → Tenant) → Option (Tenant → Tenant)
compose (some f) (some g) = some (λ t. g (f t))
compose (some f) none = none
compose none o = none

unfoldable pub set_columns : Fields → Option (Tenant → Tenant)
unfolding set_column
set_columns end = some (λ t. t)
set_columns (field k v fs) = compose (set_column k v) (set_columns fs)

abbrev pub has_id : ℕ → Tenant → Bool
has_id n t = same_id t.id n

abbrev pub has_slug : String → Tenant → Bool
has_slug slug t = elim t.slug [ none ↦ false | some s ↦ s == slug ]

-- `DomainTenant(…)` of the columns of a row, with `datetime.now()` at `now`.
abbrev pub of_row : ℕ → Tenant → Tenant
of_row now t = post_init now t

module _ {S : Type 0} (table : Table S Tenant) (now : ℕ) where
  open table use {select, add, commit}

  -- The id and the timestamps are the database's.
  unfoldable pub create : Tenant → Exec S Tenant
  create t = do
    row ← add (record t {
      id = none;
      settings = if truthy t.settings then t.settings else dict end;
      created_at = none;
      updated_at = none;
    })
    commit
    pure (of_row now row)

  unfoldable pub get_by_id : ℕ → Exec S (Option Tenant)
  get_by_id id = do rows ← select (has_id id); pure (Option.map (of_row now) (first rows))

  unfoldable pub list_all : Exec S (List Tenant)
  list_all = do rows ← select (λ t. true); pure (map (of_row now) rows)

  unfoldable pub get_by_slug : String → Exec S (Option Tenant)
  get_by_slug slug = do rows ← select (has_slug slug); pure (Option.map (of_row now) (first rows))

  unfoldable pub update_columns : ℕ → Option (Tenant → Tenant) → Exec S (Option Tenant)
  unfolding get_by_id
  update_columns id none = raise (failure "refused by the database")
  update_columns id (some f) = do
    table.update (has_id id) (λ t. record (f t) { updated_at = some now })
    get_by_id id

  abbrev update_allowed : ℕ → Fields → Exec S (Option Tenant)
  update_allowed id end = get_by_id id
  update_allowed id (field k v fs) = update_columns id (set_columns (field k v fs))

  unfoldable pub update : ℕ → Fields → Exec S (Option Tenant)
  unfolding update_columns set_columns allowed_fields
  update id fields = update_allowed id (allowed_fields fields)

  unfoldable pub update_status : ℕ → String → Exec S (Option Tenant)
  unfolding update
  update_status id status = update id (field "status" (text status) end)

  unfoldable pub delete : ℕ → Exec S (Unit {0})
  delete id = do table.delete (has_id id); pure tt

  abbrev pub sql_tenants : TenantRepository S
  sql_tenants = record {
    create = create;
    get_by_id = get_by_id;
    list_all = list_all;
    get_by_slug = get_by_slug;
    update = update;
    delete = delete;
  }
