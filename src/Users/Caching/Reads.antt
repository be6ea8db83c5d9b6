-- ===== src/Users/Caching/Reads.antt =====
-- A read by id through the cache, on a hit and on a miss.
use mathlib.Core.Option
use clean_architecture_saas.Prelude.{
  ℕ, String, ◌≡◌, refl, ap, Option, none, some, arith, Option-cases, inl, inr,
}
use clean_architecture_saas.Python.Exec.{ok}
use clean_architecture_saas.Python.Value.{Value, user}
use clean_architecture_saas.Domain.User.{User}
use clean_architecture_saas.Cache.Client.{CacheClient}
use clean_architecture_saas.Cache.Documented.{Works}
use clean_architecture_saas.Cache.Keys.{user_id, user_email}
use clean_architecture_saas.Users.Repository.{UserRepository}
use clean_architecture_saas.Users.Caching.Beside.{Stores, Apart, Coherent}
use clean_architecture_saas.Users.Caching.{get_by_id, keep_user}

map_user :
    (o : Option User) (v : Value)
    → Option.map user o ≡ some v
    → (u : User) × (o ≡ some u) × (v ≡ user u)
map_user none v e = cc
map_user (some u) v e = (u, refl, ground arith)

module _ {S : Type 0} {inner : UserRepository S} {cache : CacheClient S} (ttl : ℕ)
    {see : S → String → Option Value} {rows : S → ℕ → Option User} (works : Works cache see)
    (stores : Stores inner see rows) (side : Apart cache rows) where
  pub keep_user-ok :
      (first second : String) (o : Option User) (s : S)
      → (keep_user inner (some cache) ttl cache first second o s).0 ≡ ok tt
  keep_user-ok first second none s = refl
  keep_user-ok first second (some u) s = ground (
    arith,
    works.set_ok first (user u) (some ttl) s,
    works.set_ok second (user u) (some ttl) (cache.set first (user u) (some ttl) s).1,
  )

  pub cached_read :
      (n : ℕ) (v : Value) (s : S)
      → Coherent see rows s
      → see s (user_id n) ≡ some v
      → get_by_id inner (some cache) ttl n s ≡ (ok (rows s n), (cache.get (user_id n) s).1)
  unfolding get_by_id
  cached_read n v s h e =
      let (u, stored_user, same) = map_user (rows s n) v (h n v e) in
      ground (arith, works.get_ok (user_id n) s, stored_user, same)

  pub missed_read :
      (n : ℕ) (s : S)
      → see s (user_id n) ≡ none
      → let t = (cache.get (user_id n) s).1 in
        get_by_id inner (some cache) ttl n s ≡ (
          ok (rows s n),
          (keep_user inner
              (some cache)
              ttl
              cache
              (user_id n)
              (elim (rows t n) [ none ↦ "" | some w ↦ user_email w.email ])
              (rows t n)
              t).1,
        )
  unfolding get_by_id
  missed_read n s e =
      let t = (cache.get (user_id n) s).1 in
      ground (
        arith,
        works.get_ok (user_id n) s,
        stores.reads n t,
        side.get_rows (user_id n) n s,
        keep_user-ok (user_id n) (elim (rows t n) [ none ↦ "" | some w ↦ user_email w.email ])
            (rows t n) t,
      )

  -- With a cache that works beside the stored rows, and with nothing but stored users under the ids,
  -- a read by id through the cache answers what the repository below would.
  pub get_by_id_lem :
      (n : ℕ) (s : S)
      → Coherent see rows s
      → (get_by_id inner (some cache) ttl n s).0 ≡ ok (rows s n)
  get_by_id_lem n s h = elim (Option-cases (see s (user_id n))) [
    | inl gone ↦ ap (λ p. p.0) (missed_read n s gone)
    | inr (v, there) ↦ ap (λ p. p.0) (cached_read n v s h there)
  ]
