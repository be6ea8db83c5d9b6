-- ===== src/Cache/Documented.antt =====
-- What a client relies on of a cache that works, and that `InMemoryCache` gives it.
use clean_architecture_saas.Prelude.{ℕ, String, ◌≡◌, Option, none, ◌==◌, if◌then◌else◌}
use clean_architecture_saas.Python.Exec.{ok}
use clean_architecture_saas.Python.Value.{Value}
use clean_architecture_saas.Cache.Client.{CacheClient}
use clean_architecture_saas.Cache.InMemory.{in_memory}
use clean_architecture_saas.Cache.InMemory.Laws.{
  view, stored, get-view, view-get, view-set, view-delete, set-ok, delete-ok,
}

-- `see` is what is cached under each key. A read shows it, and only writes change it.
pub record Works {S : Type 0} (cache : CacheClient S) (see : S → String → Option Value)
    : Type 0 where
  pub get_ok : (k : String) (s : S) → (cache.get k s).0 ≡ ok (see s k)
  pub get_see : (k j : String) (s : S) → see (cache.get k s).1 j ≡ see s j
  pub set_ok : (k : String) (v : Value) (ex : Option ℕ) (s : S) → (cache.set k v ex s).0 ≡ ok tt
  pub set_see :
      (k j : String) (v : Value) (ex : Option ℕ) (s : S)
      → see (cache.set k v ex s).1 j ≡ (if k == j then stored ex v else see s j)
  pub delete_ok : (k : String) (s : S) → (cache.delete k s).0 ≡ ok tt
  pub delete_see :
      (k j : String) (s : S) → see (cache.delete k s).1 j ≡ (if k == j then none else see s j)

pub Works-in_memory : Works in_memory view
Works-in_memory = record {
  get_ok = get-view;
  get_see = view-get;
  set_ok = set-ok;
  set_see = view-set;
  delete_ok = delete-ok;
  delete_see = view-delete;
}
