-- ===== src/Db/Table.antt =====
-- The statements on one table of an `AsyncSession`, over the state `S` of the program.
use clean_architecture_saas.Prelude.{
  ℕ, ◌≡◌, Bool, List, map, keep, length, not, if◌then◌else◌, Option, none, some, nat_eq, false, ◌⊎◌,
  [], ◌∷◌, ◌++◌,
}
use clean_architecture_saas.Python.Exec.{Exc, Exec, ok, raised}

-- `select`, `update` and `delete` with a `where` condition, the last with its `rowcount`; `add`
-- followed by `flush`, which gives the row its id, and may raise by a constraint; `commit`.
pub record Table (S R : Type 0) : Type 0 where
  pub select : (R → Bool) → Exec S (List R)
  pub update : (R → Bool) → (R → R) → Exec S (Unit {0})
  pub delete : (R → Bool) → Exec S ℕ
  pub add : R → Exec S R
  pub commit : Exec S (Unit {0})

-- What is documented of the statements that a database accepts: a selection returns the rows that
-- meet the condition and writes nothing, an update writes those rows, a deletion takes them out.
pub record Documented {S R : Type 0} (t : Table S R) (rows : S → List R) : Type 0 where
  pub select_lem : (p : R → Bool) (s : S) → t.select p s ≡ (ok (keep p (rows s)), s)
  pub update_ok : (p : R → Bool) (f : R → R) (s : S) → (t.update p f s).0 ≡ ok tt
  pub update_rows :
      (p : R → Bool) (f : R → R) (s : S)
      → rows (t.update p f s).1 ≡ map (λ r. if p r then f r else r) (rows s)
  pub delete_ok : (p : R → Bool) (s : S) → (t.delete p s).0 ≡ ok (length (keep p (rows s)))
  pub delete_rows : (p : R → Bool) (s : S) → rows (t.delete p s).1 ≡ keep (λ r. not (p r)) (rows s)

-- `model.id == n`, for a key that every stored row has.
abbrev pub same_id : Option ℕ → ℕ → Bool
same_id none n = false
same_id (some m) n = nat_eq m n

-- What is documented of an insertion into a table whose rows the database stores as they are: it is
-- refused, or the row stands behind the others. A commit writes no row.
pub record Inserts {S R : Type 0} (t : Table S R) (rows : S → List R) : Type 0 where
  pub add_lem :
      (r : R) (s : S)
      → ((e : Exc) × ((t.add r s).0 ≡ raised e) × (rows (t.add r s).1 ≡ rows s))
        ⊎ ((t.add r s).0 ≡ ok r) × (rows (t.add r s).1 ≡ rows s ++ r ∷ [])
  pub commit_rows : (s : S) → rows (t.commit s).1 ≡ rows s
