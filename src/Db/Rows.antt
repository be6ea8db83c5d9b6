-- ===== src/Db/Rows.antt =====
-- Rows that are read and written one at a time by their ids, beside a cache in the state: what a cache
-- around a repository relies on.
use clean_architecture_saas.Prelude.{ℕ, String, ◌≡◌, ◌⊎◌, none, false, Option, nat_eq}
use clean_architecture_saas.Python.Exec.{Exc, Exec, ok, raised}
use clean_architecture_saas.Python.Value.{Value}
use clean_architecture_saas.Cache.Client.{CacheClient}

-- A write to the row `n` that succeeds, and leaves the other rows and the cache alone.
pub record Writes {S R : Type 0} (see : S → String → Option Value) (rows : S → ℕ → Option R) (n : ℕ)
    (m : Exec S (Unit {0})) : Type 0 where
  pub write_ok : (s : S) → (m s).0 ≡ ok tt
  pub write_rows : (j : ℕ) (s : S) → nat_eq n j ≡ false → rows (m s).1 j ≡ rows s j
  pub write_see : (k : String) (s : S) → see (m s).1 k ≡ see s k

-- An update of the row `n`: refused as a whole, or an answer that is the row as it now is, and in
-- either case no row vanishes and nothing else is touched.
pub record Updates {S R : Type 0} (see : S → String → Option Value) (rows : S → ℕ → Option R)
    (n : ℕ) (m : Exec S (Option R)) : Type 0 where
  pub answers : (s : S) → ((e : Exc) × (m s ≡ (raised e, s))) ⊎ ((m s).0 ≡ ok (rows (m s).1 n))
  pub stays : (s : S) → rows (m s).1 n ≡ none → rows s n ≡ none
  pub update_rows : (j : ℕ) (s : S) → nat_eq n j ≡ false → rows (m s).1 j ≡ rows s j
  pub update_see : (k : String) (s : S) → see (m s).1 k ≡ see s k

-- The two live side by side in the state: the cache's operations leave the rows alone.
pub record Apart {S R : Type 0} (cache : CacheClient S) (rows : S → ℕ → Option R) : Type 0 where
  pub get_rows : (k : String) (n : ℕ) (s : S) → rows (cache.get k s).1 n ≡ rows s n
  pub set_rows :
      (k : String) (v : Value) (ex : Option ℕ) (n : ℕ) (s : S)
      → rows (cache.set k v ex s).1 n ≡ rows s n
  pub delete_rows : (k : String) (n : ℕ) (s : S) → rows (cache.delete k s).1 n ≡ rows s n
