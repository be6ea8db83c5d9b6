-- ===== src/Tenants/Caching/Others.antt =====
-- Reads by slug and of the list, which leave the values under the ids right.
use clean_architecture_saas.Prelude.{
  ℕ, String, ◌≡◌, subst, Option, none, some, List, [], ◌∷◌, arith, inl, inr,
}
use clean_architecture_saas.Python.Exec.{Exec}
use clean_architecture_saas.Python.Preserves.{Preserves, after_if, after_handle, after_bind}
use clean_architecture_saas.Python.Value.{Value, dict, Values}
use clean_architecture_saas.Domain.Tenant.{Tenant}
use clean_architecture_saas.Cache.Client.{CacheClient}
use clean_architecture_saas.Cache.Documented.{Works}
use clean_architecture_saas.Cache.Keys.{tenant_slug-tenant_id, tenant_list-tenant_id}
use clean_architecture_saas.Db.Rows.{Apart}
use clean_architecture_saas.Tenants.Cached.{Formats, tenant_fields}
use clean_architecture_saas.Tenants.Cached.RoundTrip.{Stamped}
use clean_architecture_saas.Tenants.Repository.{TenantRepository}
use clean_architecture_saas.Tenants.Caching.Beside.{Stores, Leaves, Coherent, Elsewhere}
use clean_architecture_saas.Tenants.Caching.Entries.{kept_get, kept_set, fresh_set, kept_left}
use clean_architecture_saas.Tenants.Caching.Reads.{slug_key-Elsewhere}
use clean_architecture_saas.Tenants.Caching.{
  slug_key, cached, deserialized, keep_slug, missed_slug, get_by_slug, collected, cached_list,
  keep_list, missed_list, list_all,
}

module _ {S : Type 0} {formats : Formats} {inner : TenantRepository S}
    {inner_update_status : ℕ → String → Exec S (Option Tenant)} {cache : CacheClient S}
    {left : String → Value → Exec S (Unit {0})} (ttl : ℕ) {see : S → String → Option Value}
    {rows : S → ℕ → Option Tenant} (works : Works cache see)
    (stores : Stores formats inner inner_update_status see rows) (side : Apart cache rows)
    (leaves : Leaves left see rows) (now : ℕ) where
  abbrev Right : S → Type 0
  Right s = Coherent formats see rows s

  gets : (k : String) → Preserves Right (cache.get k)
  gets k = kept_get formats works side k

  sets : (k : String) (v : Value) (ex : Option ℕ) → Elsewhere k → Preserves Right (cache.set k v ex)
  sets k v ex other s = kept_set formats works side k v ex s other

  leaves_other : (k : String) (v : Value) → Elsewhere k → Preserves Right (left k v)
  leaves_other k v other s =
      kept_left formats leaves k v s (λ n same. absurd (ground (arith, other n)))

  look_other :
      (k : String)
      → Elsewhere k
      → Preserves Right (cached formats now inner inner_update_status cache left ttl k)
  look_other k other s p = search (after_handle Right, after_bind Right, gets, deserialized_other)
    where
      deserialized_other :
          (o : Option Value)
          → Preserves Right (deserialized formats now inner inner_update_status cache left ttl k o)
      deserialized_other none s p = p
      deserialized_other (some v) s p = search (after_bind Right, leaves_other)

  kept_slug :
      (n : ℕ) (t : Tenant) (s : S)
      → t.id ≡ some n
      → Stamped t
      → rows s n ≡ some t
      → Right s
      → Right (keep_slug formats now inner inner_update_status cache left ttl (some t) s).1
  kept_slug n t s own h row right =
      let w = dict (tenant_fields formats t) in
      let k = slug_key t.slug in
      let a = (cache.set k w (some ttl) s).1 in
      subst Right (ground (arith, own, works.set_ok k w (some ttl) s)) (
        fresh_set formats works side n ttl t a h
          (ground (arith, side.set_rows k w (some ttl) n s, row))
          (λ j v other. sets k w (some ttl) (slug_key-Elsewhere t.slug) s right j v))

  missed_slug-Right :
      (slug : String) (o : Option Tenant)
      → Preserves Right (missed_slug formats now inner inner_update_status cache left ttl slug o)
  missed_slug-Right slug (some t) s p = p
  missed_slug-Right slug none s p = elim (stores.by_slug slug s) [
    | inl e ↦ rw e p
    | inr (n, t, e, row) ↦
        subst Right (ground (arith, e))
          (kept_slug n t s (stores.own_id n t s row) (stores.stamps n t s row) row p)
  ]

  pub get_by_slug-Right :
      (slug : String)
      → Preserves Right (get_by_slug formats now inner inner_update_status cache left ttl slug)
  unfolding get_by_slug
  get_by_slug-Right slug s p =
      search (after_bind Right, look_other, missed_slug-Right, tenant_slug-tenant_id)

  collected-Right :
      (v : Value) (o : Option Values)
      → Preserves Right (collected formats now inner inner_update_status cache left ttl v o)
  collected-Right v none s p = p
  collected-Right v (some vs) s p = search (after_bind Right, leaves_other, tenant_list-tenant_id)

  cached_list-Right :
      Preserves Right (cached_list formats now inner inner_update_status cache left ttl)
  cached_list-Right s p =
      search (after_handle Right, after_bind Right, after_if Right, gets, collected-Right)

  keep_list-Right :
      (ts : List Tenant)
      → Preserves Right (keep_list formats now inner inner_update_status cache left ttl ts)
  keep_list-Right [] s p = p
  keep_list-Right (t ∷ ts) s p = search (after_handle Right, sets, tenant_list-tenant_id)

  missed_list-Right :
      (o : Option (List Tenant))
      → Preserves Right (missed_list formats now inner inner_update_status cache left ttl o)
  missed_list-Right (some ts) s p = p
  missed_list-Right none s p =
      let (ts, e) = stores.lists s in rw e (search (after_bind Right, keep_list-Right))

  pub list_all-Right :
      Preserves Right (list_all formats now inner inner_update_status cache left ttl)
  unfolding list_all
  list_all-Right s p = search (after_bind Right, cached_list-Right, missed_list-Right)
