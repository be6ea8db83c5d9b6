-- ===== src/Tenants/Caching/Beside.antt =====
-- What the cache of tenants relies on, and what it keeps true of the values under the ids.
use clean_architecture_saas.Prelude.{
  ℕ, String, ◌≡◌, ◌⊎◌, true, false, Option, none, some, List, ◌==◌, nat_eq,
}
use clean_architecture_saas.Python.Exec.{Exc, Exec, ok, raised}
use clean_architecture_saas.Python.Value.{Value, Fields, dict}
use clean_architecture_saas.Domain.Tenant.{Tenant}
use clean_architecture_saas.Cache.Keys.{tenant_id}
use clean_architecture_saas.Db.Rows.{Writes, Updates}
use clean_architecture_saas.Tenants.Cached.{Formats, tenant_fields, deserialize_tenant}
use clean_architecture_saas.Tenants.Cached.RoundTrip.{Stamped}
use clean_architecture_saas.Tenants.Repository.{TenantRepository}

-- A row is added whole, under the id of what is answered, or not at all.
pub record Creates {S : Type 0} (see : S → String → Option Value) (rows : S → ℕ → Option Tenant)
    (m : Exec S Tenant) (s : S) : Type 0 where
  pub id : ℕ
  pub made : Tenant
  pub made_id : made.id ≡ some id
  pub answer : (m s).0 ≡ ok made
  pub made_row : rows (m s).1 id ≡ some made
  pub other_rows : (j : ℕ) → nat_eq id j ≡ false → rows (m s).1 j ≡ rows s j
  pub create_see : (k : String) → see (m s).1 k ≡ see s k

-- The repository below reads the rows, which have their timestamps, and writes one at a time.
pub record Stores {S : Type 0} (formats : Formats) (inner : TenantRepository S)
    (inner_update_status : ℕ → String → Exec S (Option Tenant)) (see : S → String → Option Value)
    (rows : S → ℕ → Option Tenant) : Type 0 where
  pub reads : (n : ℕ) (s : S) → inner.get_by_id n s ≡ (ok (rows s n), s)
  pub own_id : (n : ℕ) (t : Tenant) (s : S) → rows s n ≡ some t → t.id ≡ some n
  pub stamps : (n : ℕ) (t : Tenant) (s : S) → rows s n ≡ some t → Stamped t
  pub by_slug :
      (slug : String) (s : S)
      → (inner.get_by_slug slug s ≡ (ok none, s))
        ⊎ ((n : ℕ) × (t : Tenant) × (inner.get_by_slug slug s ≡ (ok (some t), s))
            × (rows s n ≡ some t))
  pub lists : (s : S) → (ts : List Tenant) × (inner.list_all s ≡ (ok ts, s))
  pub creates :
      (t : Tenant) (s : S)
      → ((e : Exc) × (inner.create t s ≡ (raised e, s))) ⊎ Creates see rows (inner.create t) s
  pub updates : (n : ℕ) (fs : Fields) → Updates see rows n (inner.update n fs)
  pub updates_status : (n : ℕ) (x : String) → Updates see rows n (inner_update_status n x)
  pub writes_delete : (n : ℕ) → Writes see rows n (inner.delete n)

-- A value that is changed in place is either the caller's own or the one that is cached.
pub record Leaves {S : Type 0} (left : String → Value → Exec S (Unit {0}))
    (see : S → String → Option Value) (rows : S → ℕ → Option Tenant) : Type 0 where
  pub left_ok : (k : String) (v : Value) (s : S) → (left k v s).0 ≡ ok tt
  pub left_rows : (k : String) (v : Value) (n : ℕ) (s : S) → rows (left k v s).1 n ≡ rows s n
  pub left_see :
      (k j : String) (v : Value) (s : S)
      → (see (left k v s).1 j ≡ see s j) ⊎ ((k == j) ≡ true) × (see (left k v s).1 j ≡ some v)

-- Under a key that is no id, anything may be cached.
abbrev pub Elsewhere : String → Type 0
Elsewhere k = (n : ℕ) → (k == tenant_id n) ≡ false

module _ {S : Type 0} (formats : Formats) (see : S → String → Option Value)
    (rows : S → ℕ → Option Tenant) where
  -- What is cached for a row: its dictionary, or one that no longer can be read.
  abbrev pub Fits : Option Tenant → Value → Type 0
  Fits o v =
      ((t : Tenant) × Stamped t × (o ≡ some t) × (v ≡ dict (tenant_fields formats t)))
      ⊎ ((e : Exc) × ((now : ℕ) → deserialize_tenant formats now v ≡ (raised e, v)))

  abbrev pub Coherent : S → Type 0
  Coherent s = (n : ℕ) (v : Value) → see s (tenant_id n) ≡ some v → Fits (rows s n) v

  -- The same for all ids but one.
  abbrev pub CoherentBut : ℕ → S → Type 0
  CoherentBut n s =
      (j : ℕ) (v : Value) → nat_eq n j ≡ false → see s (tenant_id j) ≡ some v → Fits (rows s j) v
