-- ===== src/Tenants/Caching/Coherence.antt =====
-- What is cached under the id of a tenant is the stored tenant.
use clean_architecture_saas.Prelude.{
  ℕ, String, ◌≡◌, refl, subst, Option, none, some, List, [], ◌∷◌, arith, inl, inr,
}
use clean_architecture_saas.Python.Exec.{Exec, ok}
use clean_architecture_saas.Python.Preserves.{Preserves, after_if, after_handle}
use clean_architecture_saas.Python.Value.{Value, Fields}
use clean_architecture_saas.Domain.Tenant.{Tenant}
use clean_architecture_saas.Cache.Client.{CacheClient}
use clean_architecture_saas.Cache.Documented.{Works}
use clean_architecture_saas.Cache.Keys.{tenant_id}
use clean_architecture_saas.Db.Rows.{Apart}
use clean_architecture_saas.Tenants.Cached.{Formats}
use clean_architecture_saas.Tenants.Cached.RoundTrip.{Iso}
use clean_architecture_saas.Tenants.Repository.{TenantRepository}
use clean_architecture_saas.Tenants.Caching.Beside.{Stores, Leaves, Coherent, CoherentBut}
use clean_architecture_saas.Tenants.Caching.Entries.{
  kept_delete, fresh_delete, but_written, but_updated, but_created, none_updated,
}
use clean_architecture_saas.Tenants.Caching.Reads.{put_lem, get_by_id_lem}
use clean_architecture_saas.Tenants.Caching.Others.{get_by_slug-Right, list_all-Right}
use clean_architecture_saas.Tenants.Caching.{
  keep_tenant, drop_list, drop_slug, refresh_entries, create, get_by_id, get_by_slug, list_all,
  update, update_status, delete,
}

-- The operations of the repository.
pub data Command : Type 0 where
  add : Tenant → Command
  read remove : ℕ → Command
  look_up : String → Command
  list : Command
  change : ℕ → Fields → Command
  set_status : ℕ → String → Command

module _ {S : Type 0} {formats : Formats} (iso : Iso formats) (inner : TenantRepository S)
    (inner_update_status : ℕ → String → Exec S (Option Tenant)) (cache : CacheClient S)
    (left : String → Value → Exec S (Unit {0})) (ttl : ℕ) (see : S → String → Option Value)
    (rows : S → ℕ → Option Tenant) (works : Works cache see)
    (stores : Stores formats inner inner_update_status see rows) (side : Apart cache rows)
    (leaves : Leaves left see rows) where
  abbrev Right : S → Type 0
  Right s = Coherent formats see rows s

  module _ (now : ℕ) where
    drop_list-Right :
        Preserves Right (drop_list formats now inner inner_update_status cache left ttl)
    drop_list-Right s p = search (after_handle Right, kept_delete formats works side)

    create-Right :
        (t : Tenant)
        → Preserves Right (create formats now inner inner_update_status cache left ttl t)
    unfolding create
    create-Right t s h = elim (stores.creates t s) [
      | inl (x, e) ↦ rw e h
      | inr c ↦
          let u = (inner.create t s).1 in
          let p =
            put_lem iso ttl works stores side leaves now c.id c.made u c.made_id
              (stores.stamps c.id c.made u c.made_row) c.made_row
              (but_created formats (inner.create t) s c h) in
          subst Right (ground (arith, c.answer, p.0)) p.1
    ]

    -- What an update answers is cached, and where it answers nothing there was nothing.
    kept_update :
        (n : ℕ) (o : Option Tenant) (s : S)
        → rows s n ≡ o
        → CoherentBut formats see rows n s
        → (rows s n ≡ none → Right s)
        → let m = keep_tenant formats now inner inner_update_status cache left ttl o s in
          (m.0 ≡ ok tt) × Right m.1
    kept_update n none s row but gone = (refl, gone row)
    kept_update n (some t) s row but gone =
        put_lem iso ttl works stores side leaves now n t s (stores.own_id n t s row)
          (stores.stamps n t s row) row but

    update-Right :
        (n : ℕ) (fs : Fields)
        → Preserves Right (update formats now inner inner_update_status cache left ttl n fs)
    unfolding update
    update-Right n fs s h =
        let w = stores.updates n fs in
        let m = inner.update n fs in
        let t = (m s).1 in
        elim (w.answers s) [
          | inl (x, refused) ↦ rw refused h
          | inr answer ↦
              let k =
                kept_update n (rows t n) t refl (but_updated formats n m s w h)
                  (none_updated formats n m s w h) in
              subst Right (ground (arith, answer, k.0)) (drop_list-Right _ k.1)
        ]

    refreshed :
        (n : ℕ) (o : Option Tenant) (s : S)
        → rows s n ≡ o
        → CoherentBut formats see rows n s
        → let m = refresh_entries formats now inner inner_update_status cache left ttl n o s in
          (m.0 ≡ ok tt) × Right m.1
    refreshed n none s row but =
        let d = works.delete_ok (tenant_id n) s in
        (
          ground (arith, d),
          subst Right (ground (arith, d)) (fresh_delete formats works side n s but),
        )
    refreshed n (some t) s row but =
        put_lem iso ttl works stores side leaves now n t s (stores.own_id n t s row)
          (stores.stamps n t s row) row but

    update_status-Right :
        (n : ℕ) (x : String)
        → Preserves Right (update_status formats now inner inner_update_status cache left ttl n x)
    unfolding update_status
    update_status-Right n x s h =
        let w = stores.updates_status n x in
        let m = inner_update_status n x in
        let t = (m s).1 in
        elim (w.answers s) [
          | inl (e, refused) ↦
              let d = works.delete_ok (tenant_id n) s in
              subst Right (ground (arith, refused, d))
                (drop_list-Right _ (kept_delete formats works side (tenant_id n) s h))
          | inr answer ↦
              let k = refreshed n (rows t n) t refl (but_updated formats n m s w h) in
              subst Right (ground (arith, answer, k.0)) (drop_list-Right _ k.1)
        ]

    drop_slug-Right :
        (o : Option Tenant)
        → Preserves Right (drop_slug formats now inner inner_update_status cache left ttl o)
    drop_slug-Right none s p = p
    drop_slug-Right (some t) s p = search (after_if Right, kept_delete formats works side)

    delete-Right :
        (n : ℕ) → Preserves Right (delete formats now inner inner_update_status cache left ttl n)
    unfolding delete
    delete-Right n s h =
        let w = stores.writes_delete n in
        let t = (inner.delete n s).1 in
        let a = (cache.delete (tenant_id n) t).1 in
        let b = (drop_slug formats now inner inner_update_status cache left ttl (rows s n) a).1 in
        subst Right
          (ground (arith, stores.reads n s, w.write_ok s, works.delete_ok (tenant_id n) t))
          (drop_list-Right b (
            drop_slug-Right (rows s n) a
              (fresh_delete formats works side n t (but_written formats n (inner.delete n) s w h))))

    abbrev perform : Command → S → S
    perform (add t) s = (create formats now inner inner_update_status cache left ttl t s).1
    perform (read n) s = (get_by_id formats now inner inner_update_status cache left ttl n s).1
    perform (remove n) s = (delete formats now inner inner_update_status cache left ttl n s).1
    perform (look_up slug) s =
        (get_by_slug formats now inner inner_update_status cache left ttl slug s).1
    perform list s = (list_all formats now inner inner_update_status cache left ttl s).1
    perform (change n fs) s = (update formats now inner inner_update_status cache left ttl n fs s).1
    perform (set_status n x) s =
        (update_status formats now inner inner_update_status cache left ttl n x s).1

    perform-Right : (c : Command) (s : S) → Right s → Right (perform c s)
    perform-Right (add t) s h = create-Right t s h
    perform-Right (read n) s h = (get_by_id_lem iso ttl works stores side leaves now n s h).1
    perform-Right (remove n) s h = delete-Right n s h
    perform-Right (look_up slug) s h = get_by_slug-Right ttl works stores side leaves now slug s h
    perform-Right list s h = list_all-Right ttl works stores side leaves now s h
    perform-Right (change n fs) s h = update-Right n fs s h
    perform-Right (set_status n x) s h = update_status-Right n x s h

  -- Each operation at its own moment.
  abbrev pub perform_all : List (ℕ × Command) → S → S
  perform_all [] s = s
  perform_all ((now, c) ∷ cs) s = perform_all cs (perform now c s)

  perform_all-Right : (cs : List (ℕ × Command)) (s : S) → Right s → Right (perform_all cs s)
  perform_all-Right [] s h = h
  perform_all-Right ((now, c) ∷ cs) s h =
      perform_all-Right cs (perform now c s) (perform-Right now c s h)

  -- With a cache that works beside the stored rows, be it one that decodes a text on each read or one
  -- whose dictionaries the reads change in place, and after any sequence of the operations of the
  -- repository: a read by id through the cache answers what is stored.
  pub reads_current :
      (cs : List (ℕ × Command)) (now n : ℕ) (s : S)
      → Right s
      → (get_by_id formats now inner inner_update_status cache left ttl n (perform_all cs s)).0
        ≡ ok (rows (perform_all cs s) n)
  reads_current cs now n s h =
      (get_by_id_lem iso ttl works stores side leaves now n (perform_all cs s)
        (perform_all-Right cs s h)).0
