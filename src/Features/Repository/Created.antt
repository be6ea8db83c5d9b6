-- ===== src/Features/Repository/Created.antt =====
-- A flag that is created is the one that is found.
use clean_architecture_saas.Prelude.{
  ℕ, String, ◌≡◌, ◌⊎◌, refl, true, none, some, List, [], ◌∷◌, ◌++◌, keep, first, arith, eq_iff,
  nat_eq_iff, inl, inr, Option,
}
use clean_architecture_saas.Python.Exec.{Exc, ok, raised, Result-cases}
use clean_architecture_saas.Python.Value.{Fields}
use clean_architecture_saas.Db.Table.{Table, Documented}
use clean_architecture_saas.Features.Repository.{
  FlagRow, NewFlag, flag_dict, new_row, under_key, create, get_by_key,
}

-- What is documented of an insertion with a commit: it is refused, or the row stands behind the others
-- under an id of the database's.
pub record Assigns {S : Type 0} (table : Table S FlagRow) (rows : S → List FlagRow) : Type 0 where
  pub add_lem :
      (r : FlagRow) (s : S)
      → ((e : Exc) × ((table.add r s).0 ≡ raised e))
        ⊎ ((n : ℕ) × ((table.add r s).0 ≡ ok (record r { id = some n }))
            × (rows (table.add r s).1 ≡ rows s ++ record r { id = some n } ∷ []))
  pub commit_rows : (s : S) → rows (table.commit s).1 ≡ rows s

first-append :
    (rows : List FlagRow) (tid : Option ℕ) (key : String) (r : FlagRow)
    → under_key tid key r ≡ true
    → first (keep (under_key tid key) rows) ≡ none
    → first (keep (under_key tid key) (rows ++ r ∷ [])) ≡ some r
first-append [] tid key r own e = rw own refl
first-append (q ∷ rows) tid key r own e = ground (arith, first-append rows tid key r own)

own_key :
    (now n : ℕ) (f : NewFlag)
    → under_key f.tenant_id f.key (record (new_row now f) { id = some n }) ≡ true
own_key now n f = go f.tenant_id
  where
    go :
        (t : Option ℕ)
        → under_key t f.key (record (new_row now f) { id = some n; tenant_id = t }) ≡ true
    go none = ground (arith, eq_iff f.key f.key)
    go (some t) = ground (arith, eq_iff f.key f.key, nat_eq_iff t t)

module _ {S : Type 0} (table : Table S FlagRow) (rows : S → List FlagRow)
    (documented : Documented table rows) (assigns : Assigns table rows) where
  -- Over a documented table with no flag of the tenant under the key: the dictionary that a creation
  -- answers is the one that is then found by the tenant and the key.
  pub get_by_key-create :
      (now later : ℕ) (f : NewFlag) (s : S) (fs : Fields)
      → first (keep (under_key f.tenant_id f.key) (rows s)) ≡ none
      → (create table now f s).0 ≡ ok fs
      → (get_by_key table later f.tenant_id f.key (create table now f s).1).0 ≡ ok (some fs)
  unfolding create get_by_key flag_dict
  get_by_key-create now later f s fs new done = elim (assigns.add_lem (new_row now f) s) [
    | inl (e, refused) ↦ absurd (ground (arith, refused))
    | inr (n, added, stored) ↦
        let r = record (new_row now f) { id = some n } in
        let a = (table.add (new_row now f) s).1 in
        let b = (table.commit a).1 in
        elim (Result-cases (table.commit a).0) [
          | inr (x, lost) ↦ absurd (ground (arith, added, lost))
          | inl (u, kept) ↦ ground (
            arith,
            added,
            kept,
            stored,
            assigns.commit_rows a,
            documented.select_lem (under_key f.tenant_id f.key) b,
            first-append (rows s) f.tenant_id f.key r (own_key now n f) new,
          )
        ]
  ]
