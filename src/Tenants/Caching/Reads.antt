-- ===== src/Tenants/Caching/Reads.antt =====
-- The reads through the cache, on a hit, on a miss and on an entry that can not be read.
use clean_architecture_saas.Prelude.{
  ℕ, String, ◌≡◌, ◌⊎◌, refl, sym, ◌∙◌, ap, subst, Option, none, some, arith, Option-cases,
  Bool-cases, inl, inr,
}
use clean_architecture_saas.Python.Exec.{Exc, Exec, ok, raised}
use clean_architecture_saas.Python.Value.{Value, dict}
use clean_architecture_saas.Domain.Tenant.{Tenant}
use clean_architecture_saas.Cache.Client.{CacheClient}
use clean_architecture_saas.Cache.Documented.{Works}
use clean_architecture_saas.Cache.Keys.{tenant_id, tenant_slug-tenant_id}
use clean_architecture_saas.Db.Rows.{Apart}
use clean_architecture_saas.Tenants.Cached.{Formats, tenant_fields, deserialize_tenant}
use clean_architecture_saas.Tenants.Cached.RoundTrip.{
  Iso, Stamped, left_fields, read_once, read_again,
}
use clean_architecture_saas.Tenants.Repository.{TenantRepository}
use clean_architecture_saas.Tenants.Caching.Beside.{
  Stores, Leaves, Coherent, CoherentBut, Elsewhere,
}
use clean_architecture_saas.Tenants.Caching.Entries.{kept_get, kept_set, fresh_set, kept_left}
use clean_architecture_saas.Tenants.Caching.{
  slug_key, has_slug, best_effort, put_both, cached, get_by_id, keep_tenant,
}

pub slug_key-Elsewhere : (o : Option String) → Elsewhere (slug_key o)
slug_key-Elsewhere none n = tenant_slug-tenant_id "None" n
slug_key-Elsewhere (some slug) n = tenant_slug-tenant_id slug n

module _ {S : Type 0} {formats : Formats} (iso : Iso formats) {inner : TenantRepository S}
    {inner_update_status : ℕ → String → Exec S (Option Tenant)} {cache : CacheClient S}
    {left : String → Value → Exec S (Unit {0})} (ttl : ℕ) {see : S → String → Option Value}
    {rows : S → ℕ → Option Tenant} (works : Works cache see)
    (stores : Stores formats inner inner_update_status see rows) (side : Apart cache rows)
    (leaves : Leaves left see rows) (now : ℕ) where
  abbrev Right : S → Type 0
  Right s = Coherent formats see rows s

  abbrev look : String → Exec S (Option Tenant)
  look key = cached formats now inner inner_update_status cache left ttl key

  -- What a look at the entry of an id finds: the row, or nothing.
  record Found (n : ℕ) (s : S) : Type 0 where
    after : S
    right : Right after
    rows_kept : rows after n ≡ rows s n
    answer :
        (look (tenant_id n) s ≡ (ok none, after))
        ⊎ ((t : Tenant) × (look (tenant_id n) s ≡ (ok (some t), after)) × (rows s n ≡ some t))

  found_fresh :
      (n : ℕ) (t : Tenant) (s : S) (h : Stamped t)
      → Right s
      → rows s n ≡ some t
      → see s (tenant_id n) ≡ some (dict (tenant_fields formats t))
      → Found n s
  found_fresh n t s h right row e =
      let a = (cache.get (tenant_id n) s).1 in
      let w = dict (left_fields t h) in
      record {
        after = (left (tenant_id n) w a).1;
        right =
            kept_left formats leaves (tenant_id n) w a
              (λ j same. inr (_, λ k. read_again formats iso k t h))
              (kept_get formats works side (tenant_id n) s right);
        rows_kept = leaves.left_rows (tenant_id n) w n a ∙ side.get_rows (tenant_id n) n s;
        answer = inr (
          t,
          ground (
            arith,
            works.get_ok (tenant_id n) s,
            read_once formats iso now t h,
            leaves.left_ok (tenant_id n) w a,
          ),
          row,
        );
      }

  found_spent :
      (n : ℕ) (v : Value) (x : Exc) (s : S)
      → Right s
      → ((at : ℕ) → deserialize_tenant formats at v ≡ (raised x, v))
      → see s (tenant_id n) ≡ some v
      → Found n s
  found_spent n v x s right unread e =
      let a = (cache.get (tenant_id n) s).1 in
      record {
        after = (left (tenant_id n) v a).1;
        right =
            kept_left formats leaves (tenant_id n) v a (λ j same. inr (x, unread))
              (kept_get formats works side (tenant_id n) s right);
        rows_kept = leaves.left_rows (tenant_id n) v n a ∙ side.get_rows (tenant_id n) n s;
        answer = inl (
            ground
              (arith, works.get_ok (tenant_id n) s, unread now, leaves.left_ok (tenant_id n) v a));
      }

  found : (n : ℕ) (s : S) → Right s → Found n s
  found n s right = elim (Option-cases (see s (tenant_id n))) [
    | inl gone ↦ record {
      after = (cache.get (tenant_id n) s).1;
      right = kept_get formats works side (tenant_id n) s right;
      rows_kept = side.get_rows (tenant_id n) n s;
      answer = inl (ground (arith, works.get_ok (tenant_id n) s));
    }
    | inr (v, e) ↦ elim (right n v e) [
      | inl (t, h, row, same) ↦ found_fresh n t s h right row (ground arith)
      | inr (x, unread) ↦ found_spent n v x s right unread e
    ]
  ]

  -- A row that is cached under its id and its slug.
  abbrev put : Tenant → Exec S (Unit {0})
  put t = best_effort (put_both formats now inner inner_update_status cache left ttl t)

  pub put_lem :
      (n : ℕ) (t : Tenant) (s : S)
      → t.id ≡ some n
      → Stamped t
      → rows s n ≡ some t
      → CoherentBut formats see rows n s
      → ((put t s).0 ≡ ok tt) × Right (put t s).1
  put_lem n t s own h row but =
      let w = dict (tenant_fields formats t) in
      let a = (cache.set (tenant_id n) w (some ttl) s).1 in
      let fresh = fresh_set formats works side n ttl t s h row but in
      let first = works.set_ok (tenant_id n) w (some ttl) s in
      elim (Bool-cases (has_slug t)) [
        | inl slug ↦
            let second = works.set_ok (slug_key t.slug) w (some ttl) a in
            let same : put t s ≡ (ok tt, (cache.set (slug_key t.slug) w (some ttl) a).1) =
              ground (arith, own, first, second) in
            (
              ap (λ p. p.0) same,
              subst Right (sym (ap (λ p. p.1) same)) (
                  kept_set formats works side (slug_key t.slug) w (some ttl) a
                    (slug_key-Elsewhere t.slug) fresh),
            )
        | inr slug ↦
            let same : put t s ≡ (ok tt, a) = ground (arith, own, first) in
            (ap (λ p. p.0) same, subst Right (sym (ap (λ p. p.1) same)) fresh)
      ]

  keep_lem :
      (n : ℕ) (o : Option Tenant) (s : S)
      → rows s n ≡ o
      → Right s
      → let m = keep_tenant formats now inner inner_update_status cache left ttl o s in
        (m.0 ≡ ok tt) × Right m.1
  keep_lem n none s row right = (refl, right)
  keep_lem n (some t) s row right =
      put_lem n t s (stores.own_id n t s row) (stores.stamps n t s row) row (λ j v other. right j v)

  abbrev read : ℕ → Exec S (Option Tenant)
  read n = get_by_id formats now inner inner_update_status cache left ttl n

  -- A read by id answers the row, also where the entry can not be read, and leaves the entries right.
  pub get_by_id_lem :
      (n : ℕ) (s : S) → Right s → ((read n s).0 ≡ ok (rows s n)) × Right (read n s).1
  unfolding get_by_id
  get_by_id_lem n s h =
      let f = found n s h in
      elim f.answer [
        | inr (t, looked, row) ↦
            let same : read n s ≡ (ok (some t), f.after) = ground (arith, looked) in
            (
              ap (λ p. p.0) same ∙ ground (arith, row),
              subst Right (sym (ap (λ p. p.1) same)) f.right,
            )
        | inl looked ↦
            let o = rows f.after n in
            let k = keep_lem n o f.after refl f.right in
            let same : read n s ≡ (
              ok o,
              (keep_tenant formats now inner inner_update_status cache left ttl o f.after).1,
            ) =
              ground (arith, looked, stores.reads n f.after, k.0) in
            (ap (λ p. p.0) same ∙ ap ok f.rows_kept, subst Right (sym (ap (λ p. p.1) same)) k.1)
      ]
