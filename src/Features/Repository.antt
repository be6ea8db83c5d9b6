-- ===== src/Features/Repository.antt =====
-- infrastructure/repositories/feature_repository.py, over the table of a session.
pub mod Created
use mathlib.Core.Option
use clean_architecture_saas.Prelude.{
  ℕ, zero, suc, String, Bool, true, false, ◌&&◌, ◌||◌, Option, none, some, List, [], ◌∷◌, ◌==◌,
  nat_eq, if◌then◌else◌, first,
}
use clean_architecture_saas.Python.Exec.{
  failure, Result, ok, raised, bind, Exec, pure, raise, lift, ◌>>=◌, ◌>>◌,
}
use clean_architecture_saas.Python.Int.{pos}
use clean_architecture_saas.Python.Value.{
  Value, nul, flag, num, text, list, dict, moment, truthy, nil, Fields, end, field,
}
use clean_architecture_saas.Db.Table.{Table, same_id}

-- A row of `FeatureFlagModel`
pub record FlagRow : Type 0 where
  pub id : Option ℕ
  pub tenant_id : Option ℕ
  pub key : String
  pub name : String
  pub description : Option String
  pub type : String
  pub is_enabled : Option Bool
  pub enabled_value : Value
  pub default_value : Value
  pub rules : Value
  pub rollout : Value
  pub created_at : Option ℕ
  pub updated_at : Option ℕ

-- The named arguments of `create`.
pub record NewFlag : Type 0 where
  pub tenant_id : Option ℕ
  pub key : String
  pub name : String
  pub description : Option String
  pub is_enabled : Value
  pub type : String
  pub enabled_value : Value
  pub default_value : Value
  pub rules : Value
  pub rollout : Value

abbrev number_or_nul : Option ℕ → Value
number_or_nul none = nul
number_or_nul (some n) = num (pos n)

abbrev text_or_nul : Option String → Value
text_or_nul none = nul
text_or_nul (some s) = text s

abbrev flag_or_nul : Option Bool → Value
flag_or_nul none = nul
flag_or_nul (some b) = flag b

abbrev moment_or_nul : Option ℕ → Value
moment_or_nul none = nul
moment_or_nul (some t) = moment t

abbrev pub fields_of : ℕ → FlagRow → Fields
fields_of id r = field "id" (num (pos id)) (
    field "tenant_id" (number_or_nul r.tenant_id) (
      field "key" (text r.key) (
        field "name" (text r.name) (
          field "description" (text_or_nul r.description) (
            field "type" (text r.type) (
              field "is_enabled" (flag_or_nul r.is_enabled) (
                field "enabled_value" r.enabled_value (
                  field "default_value" r.default_value (
                    field "rules" r.rules (
                      field "rollout" r.rollout (
                        field "created_at" (moment_or_nul r.created_at)
                          (field "updated_at" (moment_or_nul r.updated_at) end))))))))))))

-- The dictionary of a row, with `int(row.id)`.
unfoldable pub flag_dict : FlagRow → Result Fields
flag_dict r = elim r.id [ none ↦ raised (failure "int() of None") | some n ↦ ok (fields_of n r) ]

abbrev pub found_dict : Option FlagRow → Result (Option Fields)
found_dict none = ok none
found_dict (some r) = bind (flag_dict r) (λ fs. ok (some fs))

unfoldable pub flag_dicts : List FlagRow → Result (List Fields)
unfolding flag_dict
flag_dicts [] = ok []
flag_dicts (r ∷ rows) =
    let rest = flag_dicts rows in bind (flag_dict r) (λ fs. bind rest (λ ds. ok (fs ∷ ds)))

abbrev default_rollout : Value
default_rollout = dict (field "percentage" (num (pos 100)) (field "strategy" (text "random") end))

-- The id is the database's, and the timestamps are the column defaults.
abbrev pub new_row : ℕ → NewFlag → FlagRow
new_row now f = record {
  id = none;
  tenant_id = f.tenant_id;
  key = f.key;
  name = if f.name == "" then f.key else f.name;
  description = f.description;
  type = f.type;
  is_enabled = some (truthy f.is_enabled);
  enabled_value = f.enabled_value;
  default_value = f.default_value;
  rules = if truthy f.rules then f.rules else list nil;
  rollout = if truthy f.rollout then f.rollout else default_rollout;
  created_at = some now;
  updated_at = some now;
}

abbrev pub has_id : ℕ → FlagRow → Bool
has_id n r = same_id r.id n

-- `tenant_id == tenant`, with `IS NULL` for none
abbrev pub in_tenant : Option ℕ → FlagRow → Bool
in_tenant none r = elim r.tenant_id [ none ↦ true | some n ↦ false ]
in_tenant (some t) r = same_id r.tenant_id t

abbrev pub under_key : Option ℕ → String → FlagRow → Bool
under_key tid key r = in_tenant tid r && r.key == key

-- `OFFSET` and `LIMIT`
unfoldable pub skip : {A : Type 0} → ℕ → List A → List A
skip n [] = []
skip zero (x ∷ xs) = x ∷ xs
skip (suc n) (x ∷ xs) = skip n xs

unfoldable pub at_most : {A : Type 0} → ℕ → List A → List A
at_most n [] = []
at_most zero (x ∷ xs) = []
at_most (suc n) (x ∷ xs) = x ∷ at_most n xs

abbrev is_allowed : String → Bool
is_allowed k =
    k == "description"
    || k == "is_enabled"
    || k == "rules"
    || k == "rollout"
    || k == "name"
    || k == "enabled_value"
    || k == "default_value"

unfoldable pub allowed_fields : Fields → Fields
allowed_fields end = end
allowed_fields (field k v fs) =
    let rest = allowed_fields fs in if is_allowed k then field k v rest else rest

-- A column as what it does to a row: a JSON column takes any value, the others the values of their
-- type, and NULL where they are nullable.
abbrev json_column : String → Value → Option (FlagRow → FlagRow)
json_column k v =
    if k == "rules"
    then some (λ r. record r { rules = v })
    else if k == "rollout"
    then some (λ r. record r { rollout = v })
    else if k == "enabled_value"
    then some (λ r. record r { enabled_value = v })
    else if k == "default_value"
    then some (λ r. record r { default_value = v })
    else none

unfoldable pub set_column : String → Value → Option (FlagRow → FlagRow)
set_column k v =
    if k == "description"
    then (elim v [
      | text s ↦ some (λ r. record r { description = some s })
      | nul ↦ some (λ r. record r { description = none })
      | _ ↦ none
    ])
    else if k == "is_enabled"
    then (elim v [
      | flag b ↦ some (λ r. record r { is_enabled = some b })
      | nul ↦ some (λ r. record r { is_enabled = none })
      | _ ↦ none
    ])
    else if k == "name"
    then (elim v [ text s ↦ some (λ r. record r { name = s }) | _ ↦ none ])
    else json_column k v

abbrev compose :
    Option (FlagRow → FlagRow) → Option (FlagRow → FlagRow) → Option (FlagRow → FlagRow)
compose (some f) (some g) = some (λ r. g (f r))
compose (some f) none = none
compose none o = none

unfoldable pub set_columns : Fields → Option (FlagRow → FlagRow)
unfolding set_column
set_columns end = some (λ r. r)
set_columns (field k v fs) = compose (set_column k v) (set_columns fs)

module _ {S : Type 0} (table : Table S FlagRow) (now : ℕ) where
  unfoldable pub create : NewFlag → Exec S Fields
  unfolding flag_dict
  create f = do m ← table.add (new_row now f); table.commit; lift (flag_dict m)

  unfoldable pub get_by_id : ℕ → Exec S (Option Fields)
  unfolding flag_dict
  get_by_id id = do rows ← table.select (has_id id); lift (found_dict (first rows))

  unfoldable pub get_by_key : Option ℕ → String → Exec S (Option Fields)
  unfolding flag_dict
  get_by_key tid key = do rows ← table.select (under_key tid key); lift (found_dict (first rows))

  unfoldable pub list_flags : Option ℕ → ℕ → ℕ → Exec S (List Fields)
  unfolding flag_dicts skip at_most
  list_flags tid limit offset = do
    rows ← table.select (in_tenant tid)
    lift (flag_dicts (at_most limit (skip offset rows)))

  abbrev update_columns : ℕ → Option (FlagRow → FlagRow) → Exec S (Option Fields)
  update_columns id none = raise (failure "refused by the database")
  update_columns id (some f) = do
    table.update (has_id id) (λ r. record (f r) { updated_at = some now })
    get_by_id id

  abbrev update_allowed : ℕ → Fields → Exec S (Option Fields)
  update_allowed id end = get_by_id id
  update_allowed id (field k v fs) = update_columns id (set_columns (field k v fs))

  unfoldable pub update : ℕ → Fields → Exec S (Option Fields)
  unfolding get_by_id set_columns allowed_fields
  update id fields = update_allowed id (allowed_fields fields)

  unfoldable pub delete : ℕ → Exec S (Unit {0})
  delete id = do table.delete (has_id id); pure tt
