-- ===== src/Users/Caching/Leak.antt =====
-- The key of an address has no tenant in it.
use clean_architecture_saas.Prelude.{ℕ, suc, String, ◌≡◌, Option, none, some, arith, eq_iff}
use clean_architecture_saas.Python.Exec.{ok}
use clean_architecture_saas.Python.Value.{Value, user}
use clean_architecture_saas.Domain.User.{User}
use clean_architecture_saas.Cache.Client.{CacheClient}
use clean_architecture_saas.Cache.Documented.{Works}
use clean_architecture_saas.Cache.Keys.{user_id, user_email, user_id-user_email}
use clean_architecture_saas.Users.Repository.{UserRepository}
use clean_architecture_saas.Users.Caching.{get_by_email}

-- Over a cache that works and keeps entries for a positive time: a user that is read by address for
-- one tenant is the answer to the next read of the address for every tenant.
pub tenant_ignored :
    {S : Type 0} (inner : UserRepository S) (cache : CacheClient S)
    (see : S → String → Option Value) (works : Works cache see) (ttl tid other n : ℕ)
    (email : String) (u : User) (s after : S)
    → see s (user_email email) ≡ none
    → inner.get_by_email tid email (cache.get (user_email email) s).1 ≡ (ok (some u), after)
    → u.id ≡ some n
    → (get_by_email inner
        (some cache)
        (suc ttl)
        other
        email
        (get_by_email inner (some cache) (suc ttl) tid email s).1).0
      ≡ ok (some u)
unfolding get_by_email
tenant_ignored inner cache see works ttl tid other n email u s after gone reads has =
    let key = user_email email in
    let s1 = (cache.set key (user u) (some (suc ttl)) after).1 in
    let s2 = (cache.set (user_id n) (user u) (some (suc ttl)) s1).1 in
    ground (
      arith,
      works.get_ok key s,
      works.set_ok key (user u) (some (suc ttl)) after,
      works.set_ok (user_id n) (user u) (some (suc ttl)) s1,
      works.set_see key key (user u) (some (suc ttl)) after,
      works.set_see (user_id n) key (user u) (some (suc ttl)) s1,
      works.get_ok key s2,
      user_id-user_email n email,
      eq_iff key key,
    )
