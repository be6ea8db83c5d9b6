-- ===== src/Features/Caching/Pages.antt =====
-- The pages of a list of flags and its one entry in the cache.
use clean_architecture_saas.Prelude.{
  ℕ, String, ◌≡◌, false, Option, none, some, List, arith, eq_iff, nat_eq,
}
use clean_architecture_saas.Python.Exec.{ok}
use clean_architecture_saas.Python.Value.{Value, list, Fields}
use clean_architecture_saas.Domain.Auth.{Conversions}
use clean_architecture_saas.Cache.Client.{CacheClient}
use clean_architecture_saas.Cache.Documented.{Works}
use clean_architecture_saas.Features.{FeatureFlagRepository, id_text}
use clean_architecture_saas.Features.Caching.{flags, list_key, list_all}

module _ {S : Type 0} (py : Conversions) (inner : FeatureFlagRepository S) (cache : CacheClient S)
    (see : S → String → Option Value) (works : Works cache see) (ttl : ℕ) where
  hit :
      (tid : Option ℕ) (limit offset : ℕ) (v : Value) (s : S)
      → see s (list_key (id_text tid)) ≡ some v
      → (list_all py inner (some cache) ttl tid limit offset s).0 ≡ ok v
  unfolding list_all
  hit tid limit offset v s e = ground (arith, works.get_ok (list_key (id_text tid)) s)

  stores :
      (tid : Option ℕ) (limit offset : ℕ) (rows : List Fields) (s : S)
      → nat_eq ttl 0 ≡ false
      → see s (list_key (id_text tid)) ≡ none
      → let t = (cache.get (list_key (id_text tid)) s).1 in
        inner.list tid limit offset t ≡ (ok rows, t)
        → let out = list_all py inner (some cache) ttl tid limit offset s in
          (out.0 ≡ ok (list (flags rows)))
          × (see out.1 (list_key (id_text tid)) ≡ some (list (flags rows)))
  unfolding list_all
  stores tid limit offset rows s lasts gone e =
      let k = list_key (id_text tid) in
      let t = (cache.get k s).1 in
      let w = list (flags rows) in
      ground (
        arith,
        works.get_ok k s,
        works.set_ok k w (some ttl) t,
        works.set_see k k w (some ttl) t,
        eq_iff k k,
      )

  -- With a cache that works: after one page of a tenant's flags is listed and cached, every other
  -- page that is asked for, of any limit and offset, is answered with that page.
  pub one_page :
      (tid : Option ℕ) (limit offset limit' offset' : ℕ) (rows : List Fields) (s : S)
      → nat_eq ttl 0 ≡ false
      → see s (list_key (id_text tid)) ≡ none
      → let t = (cache.get (list_key (id_text tid)) s).1 in
        inner.list tid limit offset t ≡ (ok rows, t)
        → (list_all py inner
            (some cache)
            ttl
            tid
            limit'
            offset'
            (list_all py inner (some cache) ttl tid limit offset s).1).0
          ≡ ok (list (flags rows))
  one_page tid limit offset limit' offset' rows s lasts gone e =
      hit tid limit' offset' _ _ (stores tid limit offset rows s lasts gone e).1
