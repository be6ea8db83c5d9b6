-- ===== src/Tests/Stored.antt =====
-- Flags in their table, and values in Redis.
use clean_architecture_saas.Prelude.{◌≡◌, refl, inr, true, none, some, List, [], ◌∷◌, ◌++◌}
use clean_architecture_saas.Python.Exec.{ok}
use clean_architecture_saas.Python.Value.{nul, flag}
use clean_architecture_saas.Db.Table.{Table, Documented}
use clean_architecture_saas.Db.ListTable.{list_table}
use clean_architecture_saas.Features.Repository.{
  FlagRow, NewFlag, fields_of, new_row, create, get_by_key,
}
use clean_architecture_saas.Features.Repository.Created.{Assigns, get_by_key-create}

-- Every new row gets the id 9.
abbrev flag_table : Table (List FlagRow) FlagRow
flag_table = record list_table {
  add = λ r s. let stored = record r { id = some 9 } in (ok stored, s ++ stored ∷ []);
}

Assigns-flag_table : Assigns flag_table (λ s. s)
Assigns-flag_table = record { add_lem = λ r s. inr (9, refl, refl); commit_rows = λ s. refl }

Documented-flag_table : Documented flag_table (λ s. s)
Documented-flag_table = record {
  select_lem = λ p s. refl;
  update_ok = λ p f s. refl;
  update_rows = λ p f s. refl;
  delete_ok = λ p s. refl;
  delete_rows = λ p s. refl;
}

abbrev pub beta : NewFlag
beta = record {
  tenant_id = some 1;
  key = "beta";
  name = "";
  description = none;
  is_enabled = flag true;
  type = "boolean";
  enabled_value = nul;
  default_value = nul;
  rules = nul;
  rollout = nul;
}

made : (create flag_table 7 beta []).0 ≡ ok (fields_of 9 (record (new_row 7 beta) { id = some 9 }))
unfolding create
made = refl

get_by_key-create_example :
    (get_by_key flag_table 8 (some 1) "beta" (create flag_table 7 beta []).1).0
    ≡ ok (some (fields_of 9 (record (new_row 7 beta) { id = some 9 })))
get_by_key-create_example =
    get_by_key-create flag_table (λ s. s) Documented-flag_table Assigns-flag_table 7 8 beta []
      (fields_of 9 (record (new_row 7 beta) { id = some 9 })) refl made
