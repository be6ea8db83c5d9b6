-- ===== src/Users/Caching/Entries.antt =====
-- Each single operation on the cache or on a row, and whether the values under the ids stay right.
use mathlib.Core.Option
use clean_architecture_saas.Prelude.{
  ℕ, String, ◌≡◌, ap, subst, Option, none, some, arith, nat_eq, nat_eq_iff, Bool-cases, inl, inr,
}
use clean_architecture_saas.Python.Exec.{Exec}
use clean_architecture_saas.Python.Value.{Value, user}
use clean_architecture_saas.Domain.User.{User}
use clean_architecture_saas.Cache.Client.{CacheClient}
use clean_architecture_saas.Cache.Documented.{Works}
use clean_architecture_saas.Cache.Keys.{user_id, user_email, user_id-user_id, user_email-user_id}
use clean_architecture_saas.Users.Caching.Beside.{Writes, Updates, Apart, Coherent, CoherentBut}

module _ {S : Type 0} {cache : CacheClient S} {see : S → String → Option Value}
    {rows : S → ℕ → Option User} (works : Works cache see) (side : Apart cache rows) where
  pub kept_get : (k : String) (s : S) → Coherent see rows s → Coherent see rows (cache.get k s).1
  kept_get k s h n v e = ground (arith, works.get_see k (user_id n) s, side.get_rows k n s, h n v)

  pub kept_delete :
      (k : String) (s : S) → Coherent see rows s → Coherent see rows (cache.delete k s).1
  kept_delete k s h n v e =
      ground (arith, works.delete_see k (user_id n) s, side.delete_rows k n s, h n v)

  pub fresh_delete :
      (n : ℕ) (s : S) → CoherentBut see rows n s → Coherent see rows (cache.delete (user_id n) s).1
  fresh_delete n s h j v e = ground (
    arith,
    works.delete_see (user_id n) (user_id j) s,
    user_id-user_id n j,
    side.delete_rows (user_id n) j s,
    h j v,
  )

  pub kept_email :
      (ttl : ℕ) (email : String) (v : Value) (s : S)
      → Coherent see rows s
      → Coherent see rows (cache.set (user_email email) v (some ttl) s).1
  kept_email ttl email w s h n v e = ground (
    arith,
    works.set_see (user_email email) (user_id n) w (some ttl) s,
    user_email-user_id n email,
    side.set_rows (user_email email) w (some ttl) n s,
    h n v,
  )

  pub fresh_set :
      (ttl n : ℕ) (u : User) (s : S)
      → rows s n ≡ some u
      → CoherentBut see rows n s
      → Coherent see rows (cache.set (user_id n) (user u) (some ttl) s).1
  fresh_set ttl n u s r h j v e = elim (Bool-cases (nat_eq n j)) [
    | inl same ↦ ground (
      arith,
      works.set_see (user_id n) (user_id j) (user u) (some ttl) s,
      user_id-user_id n j,
      side.set_rows (user_id n) (user u) (some ttl) j s,
      nat_eq_iff n j,
      ap (rows s) ((nat_eq_iff n j).0 same),
    )
    | inr other ↦ ground (
      arith,
      works.set_see (user_id n) (user_id j) (user u) (some ttl) s,
      user_id-user_id n j,
      side.set_rows (user_id n) (user u) (some ttl) j s,
      h j v,
    )
  ]

module _ {S : Type 0} {see : S → String → Option Value} {rows : S → ℕ → Option User} where
  pub but_written :
      (n : ℕ) (m : Exec S (Unit {0})) (s : S)
      → Writes see rows n m
      → Coherent see rows s
      → CoherentBut see rows n (m s).1
  but_written n m s w h j v other e =
      ground (arith, w.write_see (user_id j) s, w.write_rows j s other, h j v)

  pub but_updated :
      (n : ℕ) (m : Exec S (Option User)) (s : S)
      → Updates see rows n m
      → Coherent see rows s
      → CoherentBut see rows n (m s).1
  but_updated n m s w h j v other e =
      ground (arith, w.update_see (user_id j) s, w.update_rows j s other, h j v)

  -- A row that is not there was not there before, so nothing is cached for it.
  pub none_updated :
      (n : ℕ) (m : Exec S (Option User)) (s : S)
      → Updates see rows n m
      → Coherent see rows s
      → rows (m s).1 n ≡ none
      → Coherent see rows (m s).1
  none_updated n m s w h gone j v e = elim (Bool-cases (nat_eq n j)) [
    | inl same ↦
        subst (λ k. see s (user_id k) ≡ some v → Option.map user (rows (m s).1 k) ≡ some v)
          ((nat_eq_iff n j).0 same) (λ there. ground (arith, w.stays s gone, h n v there))
          (ground (arith, w.update_see (user_id j) s))
    | inr other ↦ ground (arith, w.update_see (user_id j) s, w.update_rows j s other, h j v)
  ]
