-- ===== src/Db/ListTable.antt =====
-- A table as a list of rows that stands somewhere in the state: the documented behaviour can be met.
use clean_architecture_saas.Prelude.{
  ◌≡◌, refl, List, [], ◌∷◌, ◌++◌, map, keep, length, not, if◌then◌else◌,
}
use clean_architecture_saas.Python.Exec.{ok}
use clean_architecture_saas.Db.Table.{Table, Documented}

module _ {S R : Type 0} (rows : S → List R) (put : List R → S → S) where
  -- Every row that is added is accepted as it is.
  abbrev pub table_at : Table S R
  table_at = record {
    select = λ p s. (ok (keep p (rows s)), s);
    update = λ p f s. (ok tt, put (map (λ r. if p r then f r else r) (rows s)) s);
    delete = λ p s. (ok (length (keep p (rows s))), put (keep (λ r. not (p r)) (rows s)) s);
    add = λ r s. (ok r, put (rows s ++ r ∷ []) s);
    commit = λ s. (ok tt, s);
  }

  pub Documented-table_at :
      ((rs : List R) (s : S) → rows (put rs s) ≡ rs) → Documented table_at rows
  Documented-table_at law = record {
    select_lem = λ p s. refl;
    update_ok = λ p f s. refl;
    update_rows = λ p f s. law (map (λ r. if p r then f r else r) (rows s)) s;
    delete_ok = λ p s. refl;
    delete_rows = λ p s. law (keep (λ r. not (p r)) (rows s)) s;
  }

module _ {R : Type 0} where
  -- The state is the list.
  abbrev pub list_table : Table (List R) R
  list_table = table_at (λ s. s) (λ rs s. rs)

  pub Documented-list_table : Documented list_table (λ s. s)
  Documented-list_table = Documented-table_at (λ s. s) (λ rs s. rs) (λ rs s. refl)
