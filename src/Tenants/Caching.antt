-- ===== src/Tenants/Caching.antt =====
-- infrastructure/repositories/caching/tenant_caching.py, around any repository of tenants. The
-- constructor takes a client of a cache, so its tests for `None` pass; the handlers only log.
pub mod Beside
pub mod Entries
pub mod Coherence
pub mod Reads
pub mod Others
use clean_architecture_saas.Prelude.{
  ℕ, String, Bool, false, not, Option, none, some, List, [], ◌∷◌, ◌==◌, if◌then◌else◌,
}
use clean_architecture_saas.Python.Exec.{
  failure, Result, ok, raised, bind, Exec, pure, raise, lift, attempt, ◌>>=◌, ◌>>◌,
}
use clean_architecture_saas.Python.Value.{
  Value, list, dict, truthy, Values, nil, cons, Fields, or_nul,
}
use clean_architecture_saas.Domain.Feature.{items}
use clean_architecture_saas.Domain.Tenant.{Tenant}
use clean_architecture_saas.Cache.Client.{CacheClient}
use clean_architecture_saas.Cache.Keys.{tenant_id, tenant_slug, tenant_list}
use clean_architecture_saas.Tenants.Cached.{Formats, tenant_fields, deserialize_tenant}
use clean_architecture_saas.Tenants.Repository.{TenantRepository}

-- `f"tenant:id:{t.id}"`, and the same for a slug
abbrev pub id_key : Option ℕ → String
id_key none = "tenant:id:None"
id_key (some n) = tenant_id n

abbrev pub slug_key : Option String → String
slug_key none = tenant_slug "None"
slug_key (some s) = tenant_slug s

abbrev pub has_slug : Tenant → Bool
has_slug t = elim t.slug [ none ↦ false | some s ↦ not (s == "") ]

abbrev pub best_effort : {S : Type 0} → Exec S (Unit {0}) → Exec S (Unit {0})
best_effort m = attempt m (λ e. pure tt)

-- The list as it is left after its items were read.
abbrev list_left : Value → Values → Value
list_left v vs = elim v [ list ws ↦ list vs | w ↦ w ]

-- `left key v` is what becomes of the cache when the value that a read of the key gave is changed to
-- `v` in place: nothing if the client decodes a text, and in memory the entry is that value.
module _ {S : Type 0} (formats : Formats) (now : ℕ) (inner : TenantRepository S)
    (inner_update_status : ℕ → String → Exec S (Option Tenant)) (cache : CacheClient S)
    (left : String → Value → Exec S (Unit {0})) (ttl : ℕ) where
  abbrev pub deserialized : String → Option Value → Exec S (Option Tenant)
  deserialized key none = pure none
  deserialized key (some v) = do
    left key (deserialize_tenant formats now v).1
    lift (deserialize_tenant formats now v).0

  abbrev pub cached : String → Exec S (Option Tenant)
  cached key = attempt (do v ← cache.get key; deserialized key v) (λ e. pure none)

  abbrev pub put_at : String → Tenant → Exec S (Unit {0})
  put_at key t = cache.set key (dict (tenant_fields formats t)) (some ttl)

  abbrev pub put_both : Tenant → Exec S (Unit {0})
  put_both t = do put_at (id_key t.id) t; if has_slug t then put_at (slug_key t.slug) t else pure tt

  abbrev pub drop_list : Exec S (Unit {0})
  drop_list = best_effort (cache.delete tenant_list)

  -- The cached list is left as it is.
  unfoldable pub create : Tenant → Exec S Tenant
  create t = do created ← inner.create t; best_effort (put_both created); pure created

  abbrev pub keep_tenant : Option Tenant → Exec S (Unit {0})
  keep_tenant none = pure tt
  keep_tenant (some t) = best_effort (put_both t)

  abbrev pub missed_id : ℕ → Option Tenant → Exec S (Option Tenant)
  missed_id id (some t) = pure (some t)
  missed_id id none = do t ← inner.get_by_id id; keep_tenant t; pure t

  unfoldable pub get_by_id : ℕ → Exec S (Option Tenant)
  unfolding deserialize_tenant
  get_by_id id = do found ← cached (tenant_id id); missed_id id found

  -- The loop over the items, and the items as it leaves them.
  unfoldable pub collect : Values → Result (List Tenant) × Values
  unfolding deserialize_tenant
  collect nil = (ok [], nil)
  collect (cons v vs) =
      let (r, w) = deserialize_tenant formats now v in
      let (rs, ws) = collect vs in
      elim r [
        | raised e ↦ (raised e, cons w vs)
        | ok none ↦ (rs, cons w ws)
        | ok (some t) ↦ (bind rs (λ ts. ok (t ∷ ts)), cons w ws)
      ]

  abbrev collected : Value → Option Values → Exec S (Option (List Tenant))
  collected v none = raise (failure "not iterable")
  collected v (some vs) = do
    left tenant_list (list_left v (collect vs).1)
    ts ← lift (collect vs).0
    pure (some ts)

  abbrev pub cached_list : Exec S (Option (List Tenant))
  cached_list =
      attempt
        (do
          v ← cache.get tenant_list
          if truthy (or_nul v) then collected (or_nul v) (items (or_nul v)) else pure none)
        (λ e. pure none)

  abbrev dicts : List Tenant → Values
  dicts [] = nil
  dicts (t ∷ ts) = cons (dict (tenant_fields formats t)) (dicts ts)

  abbrev pub keep_list : List Tenant → Exec S (Unit {0})
  keep_list [] = pure tt
  keep_list (t ∷ ts) = best_effort (cache.set tenant_list (list (dicts (t ∷ ts))) (some ttl))

  abbrev pub missed_list : Option (List Tenant) → Exec S (List Tenant)
  missed_list (some ts) = pure ts
  missed_list none = do rows ← inner.list_all; keep_list rows; pure rows

  unfoldable pub list_all : Exec S (List Tenant)
  unfolding collect items
  list_all = do found ← cached_list; missed_list found

  abbrev pub keep_slug : Option Tenant → Exec S (Unit {0})
  keep_slug none = pure tt
  keep_slug (some t) = best_effort (do put_at (slug_key t.slug) t; put_at (id_key t.id) t)

  abbrev pub missed_slug : String → Option Tenant → Exec S (Option Tenant)
  missed_slug slug (some t) = pure (some t)
  missed_slug slug none = do t ← inner.get_by_slug slug; keep_slug t; pure t

  unfoldable pub get_by_slug : String → Exec S (Option Tenant)
  unfolding deserialize_tenant
  get_by_slug slug = do found ← cached (tenant_slug slug); missed_slug slug found

  unfoldable pub update : ℕ → Fields → Exec S (Option Tenant)
  update id fields = do res ← inner.update id fields; keep_tenant res; drop_list; pure res

  abbrev pub drop_slug : Option Tenant → Exec S (Unit {0})
  drop_slug none = pure tt
  drop_slug (some t) = if has_slug t then cache.delete (slug_key t.slug) else pure tt

  unfoldable pub delete : ℕ → Exec S (Unit {0})
  delete id = do
    existing ← attempt (inner.get_by_id id) (λ e. pure none)
    inner.delete id
    best_effort (do cache.delete (tenant_id id); drop_slug existing)
    drop_list

  abbrev pub refresh_entries : ℕ → Option Tenant → Exec S (Unit {0})
  refresh_entries id none = best_effort (cache.delete (tenant_id id))
  refresh_entries id (some t) = best_effort (put_both t)

  -- An update that raises counts as none.
  unfoldable pub update_status : ℕ → String → Exec S (Option Tenant)
  update_status id status = do
    res ← attempt (inner_update_status id status) (λ e. pure none)
    refresh_entries id res
    drop_list
    pure res

  abbrev pub caching_tenants : TenantRepository S
  caching_tenants = record {
    create = create;
    get_by_id = get_by_id;
    list_all = list_all;
    get_by_slug = get_by_slug;
    update = update;
    delete = delete;
  }
