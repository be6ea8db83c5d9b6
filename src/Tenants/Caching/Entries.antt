-- ===== src/Tenants/Caching/Entries.antt =====
-- Each single operation on the cache, and whether the values under the ids stay right.
use clean_architecture_saas.Prelude.{
  ℕ, String, ◌≡◌, sym, ◌∙◌, ap, subst, Option, none, some, arith, ◌==◌, nat_eq, nat_eq_iff,
  Bool-cases, inl, inr, true,
}
use clean_architecture_saas.Python.Exec.{Exec}
use clean_architecture_saas.Python.Value.{Value, dict}
use clean_architecture_saas.Domain.Tenant.{Tenant}
use clean_architecture_saas.Cache.Client.{CacheClient}
use clean_architecture_saas.Cache.Documented.{Works}
use clean_architecture_saas.Cache.Keys.{tenant_id, tenant_id-tenant_id}
use clean_architecture_saas.Db.Rows.{Writes, Updates, Apart}
use clean_architecture_saas.Tenants.Cached.{Formats, tenant_fields}
use clean_architecture_saas.Tenants.Cached.RoundTrip.{Stamped}
use clean_architecture_saas.Tenants.Caching.Beside.{
  Leaves, Creates, Fits, Coherent, CoherentBut, Elsewhere,
}

module _ {S : Type 0} (formats : Formats) {cache : CacheClient S} {see : S → String → Option Value}
    {rows : S → ℕ → Option Tenant} (works : Works cache see) (side : Apart cache rows) where
  pub kept_get :
      (k : String) (s : S)
      → Coherent formats see rows s
      → Coherent formats see rows (cache.get k s).1
  kept_get k s h n v e =
      subst (λ o. Fits formats see rows o v) (sym (side.get_rows k n s))
        (h n v (ground (arith, works.get_see k (tenant_id n) s)))

  pub kept_delete :
      (k : String) (s : S)
      → Coherent formats see rows s
      → Coherent formats see rows (cache.delete k s).1
  kept_delete k s h n v e =
      subst (λ o. Fits formats see rows o v) (sym (side.delete_rows k n s))
        (h n v (ground (arith, works.delete_see k (tenant_id n) s)))

  pub fresh_delete :
      (n : ℕ) (s : S)
      → CoherentBut formats see rows n s
      → Coherent formats see rows (cache.delete (tenant_id n) s).1
  fresh_delete n s h j v e =
      let kept = works.delete_see (tenant_id n) (tenant_id j) s in
      let same = tenant_id-tenant_id n j in
      subst (λ o. Fits formats see rows o v) (sym (side.delete_rows (tenant_id n) j s))
        (h j v (ground (arith, kept, same)) (ground (arith, kept, same)))

  pub kept_set :
      (k : String) (v : Value) (ex : Option ℕ) (s : S)
      → Elsewhere k
      → Coherent formats see rows s
      → Coherent formats see rows (cache.set k v ex s).1
  kept_set k w ex s other h n v e =
      subst (λ o. Fits formats see rows o v) (sym (side.set_rows k w ex n s))
        (h n v (ground (arith, works.set_see k (tenant_id n) w ex s, other n)))

  pub fresh_set :
      (n ttl : ℕ) (t : Tenant) (s : S)
      → Stamped t
      → rows s n ≡ some t
      → CoherentBut formats see rows n s
      → Coherent formats see rows
          (cache.set (tenant_id n) (dict (tenant_fields formats t)) (some ttl) s).1
  fresh_set n ttl t s stamps row h j v e =
      let w = dict (tenant_fields formats t) in
      let kept = works.set_see (tenant_id n) (tenant_id j) w (some ttl) s in
      let same = tenant_id-tenant_id n j in
      subst (λ o. Fits formats see rows o v) (sym (side.set_rows (tenant_id n) w (some ttl) j s))
        (elim (Bool-cases (nat_eq n j)) [
          | inl here ↦ inl (
            t,
            stamps,
            ground (arith, ap (rows s) ((nat_eq_iff n j).0 here)),
            ground (arith, kept, same),
          )
          | inr there ↦ h j v there (ground (arith, kept, same))
        ])

module _ {S : Type 0} (formats : Formats) {left : String → Value → Exec S (Unit {0})}
    {see : S → String → Option Value} {rows : S → ℕ → Option Tenant}
    (leaves : Leaves left see rows) where
  -- What is left in place of a value fits its row, or stands elsewhere.
  pub kept_left :
      (k : String) (w : Value) (s : S)
      → ((n : ℕ) → (k == tenant_id n) ≡ true → Fits formats see rows (rows s n) w)
      → Coherent formats see rows s
      → Coherent formats see rows (left k w s).1
  kept_left k w s fits h n v e =
      subst (λ o. Fits formats see rows o v) (sym (leaves.left_rows k w n s))
        (elim (leaves.left_see k (tenant_id n) w s) [
          | inl kept ↦ h n v (ground arith)
          | inr (here, put) ↦
              let same : w ≡ v = cc in subst (Fits formats see rows (rows s n)) same (fits n here)
        ])

module _ {S : Type 0} (formats : Formats) {see : S → String → Option Value}
    {rows : S → ℕ → Option Tenant} where
  pub but_written :
      (n : ℕ) (m : Exec S (Unit {0})) (s : S)
      → Writes see rows n m
      → Coherent formats see rows s
      → CoherentBut formats see rows n (m s).1
  but_written n m s w h j v other e =
      subst (λ o. Fits formats see rows o v) (sym (w.write_rows j s other))
        (h j v (ground (arith, w.write_see (tenant_id j) s)))

  pub but_updated :
      (n : ℕ) (m : Exec S (Option Tenant)) (s : S)
      → Updates see rows n m
      → Coherent formats see rows s
      → CoherentBut formats see rows n (m s).1
  but_updated n m s w h j v other e =
      subst (λ o. Fits formats see rows o v) (sym (w.update_rows j s other))
        (h j v (ground (arith, w.update_see (tenant_id j) s)))

  pub but_created :
      (m : Exec S Tenant) (s : S) (c : Creates see rows m s)
      → Coherent formats see rows s
      → CoherentBut formats see rows c.id (m s).1
  but_created m s c h j v other e =
      subst (λ o. Fits formats see rows o v) (sym (c.other_rows j other))
        (h j v (ground (arith, c.create_see (tenant_id j))))

  -- A row that is not there was not there before.
  pub none_updated :
      (n : ℕ) (m : Exec S (Option Tenant)) (s : S)
      → Updates see rows n m
      → Coherent formats see rows s
      → rows (m s).1 n ≡ none
      → Coherent formats see rows (m s).1
  none_updated n m s w h gone j v e = elim (Bool-cases (nat_eq n j)) [
    | inl same ↦
        subst (λ k. see s (tenant_id k) ≡ some v → Fits formats see rows (rows (m s).1 k) v)
          ((nat_eq_iff n j).0 same)
          (λ there.
            subst (λ o. Fits formats see rows o v) (w.stays s gone ∙ sym gone) (h n v there))
          (ground (arith, w.update_see (tenant_id j) s))
    | inr other ↦ but_updated n m s w h j v other e
  ]
