-- ===== src/Tests/OneTenant.antt =====
-- A repository of one tenant beside the cache in memory, whose dictionaries are shared.
use mathlib.Core.Option
use clean_architecture_saas.Prelude.{
  ℕ, String, ◌≡◌, ◌⊎◌, refl, sym, ◌∙◌, ap, subst, true, false, Option, none, some, [], ◌∷◌, arith,
  ◌==◌, eq_iff, nat_eq, nat_eq_iff, Bool-cases, inl, inr, if◌then◌else◌,
}
use clean_architecture_saas.Python.Dict
use clean_architecture_saas.Python.Dict.{get-put}
use clean_architecture_saas.Python.Exec.{Exec, ok}
use clean_architecture_saas.Python.Int.{ℤ, pos, negsuc}
use clean_architecture_saas.Python.Text.{show, parse_int, parse_int-show}
use clean_architecture_saas.Python.Value.{Value}
use clean_architecture_saas.Domain.Tenant.{Tenant, post_init}
use clean_architecture_saas.Cache.Client.{CacheClient}
use clean_architecture_saas.Cache.Documented.{Works, Works-in_memory}
use clean_architecture_saas.Cache.InMemory.{Entry, Mem, in_memory, expired}
use clean_architecture_saas.Cache.InMemory.Laws.{view}
use clean_architecture_saas.Db.Rows.{Apart, Updates}
use clean_architecture_saas.Tenants.Cached.{Formats}
use clean_architecture_saas.Tenants.Cached.RoundTrip.{Iso, Stamped}
use clean_architecture_saas.Tenants.Repository.{TenantRepository}
use clean_architecture_saas.Tenants.Caching.Beside.{Stores, Leaves}
use clean_architecture_saas.Tests.World.{tenant_of}

-- The value of an entry is changed in place.
abbrev pub change_entry : String → Value → Mem → Option Entry → Mem
change_entry k v m none = m
change_entry k v m (some e) = record m { store = Dict.put m.store k (record e { value = v }) }

abbrev pub change : String → Value → Mem → Mem
change k v m = change_entry k v m (Dict.get m.store k)

view-change_entry :
    (k j : String) (v : Value) (m : Mem) (o : Option Entry)
    → Dict.get m.store k ≡ o
    → (view (change_entry k v m o) j ≡ view m j)
      ⊎ ((k == j) ≡ true) × (view (change_entry k v m o) j ≡ some v)
unfolding view expired
view-change_entry k j v m none there = inl refl
view-change_entry k j v m (some e) there =
    let changed = get-put m.store k j (record e { value = v }) in
    elim (Bool-cases (k == j)) [
      | inr other ↦ inl (rw changed (rw other refl))
      | inl same ↦ elim (Bool-cases (expired m.clock e)) [
        | inl late ↦ inl (
            ground (
              arith,
              changed,
              same,
              there,
              late,
              eq_iff k j,
              ap (Dict.get m.store) ((eq_iff k j).0 same),
            ))
        | inr live ↦ inr (same, ground (arith, changed, same, live))
      ]
    ]

-- The slug and the status of the one row, which may be there.
abbrev pub Row : Type 0
Row = Option (String × String)

abbrev pub Both : Type 0
Both = Row × Mem

abbrev pub acme : String × String → Tenant
acme (slug, status) = record (tenant_of 1 status) { slug = some slug }

abbrev pub rows : Both → ℕ → Option Tenant
rows (o, m) n = if nat_eq n 1 then Option.map acme o else none

abbrev pub see : Both → String → Option Value
see (o, m) = view m

abbrev pub with_status : String → Row → Row
with_status x none = none
with_status x (some (slug, status)) = some (slug, x)

-- Only the status of the row can be changed.
abbrev pub write : ℕ → String → Exec Both (Option Tenant)
write n x (o, m) =
    let s : Both = (if nat_eq n 1 then with_status x o else o, m) in (ok (rows s n), s)

abbrev pub by_slug : String → Row → Option Tenant
by_slug slug none = none
by_slug slug (some (own, status)) = if own == slug then some (acme (own, status)) else none

abbrev pub one_row : TenantRepository Both
one_row = record {
  create = λ t (o, m). (ok (acme ("acme", t.status)), (some ("acme", t.status), m));
  get_by_id = λ n s. (ok (rows s n), s);
  list_all = λ (o, m). (ok (elim o [ none ↦ [] | some r ↦ acme r ∷ [] ]), (o, m));
  get_by_slug = λ slug (o, m). (ok (by_slug slug o), (o, m));
  update = λ n fs. write n "active";
  delete = λ n (o, m). (ok tt, (if nat_eq n 1 then none else o, m));
}

abbrev pub cache_beside : CacheClient Both
cache_beside = record {
  get = λ k (o, m). let (r, m') = in_memory.get k m in (r, (o, m'));
  set = λ k v ex (o, m). let (r, m') = in_memory.set k v ex m in (r, (o, m'));
  incr = λ k (o, m). let (r, m') = in_memory.incr k m in (r, (o, m'));
  expire = λ k n (o, m). let (r, m') = in_memory.expire k n m in (r, (o, m'));
  delete = λ k (o, m). let (r, m') = in_memory.delete k m in (r, (o, m'));
}

abbrev pub shared : String → Value → Exec Both (Unit {0})
shared k v (o, m) = (ok tt, (o, change k v m))

pub Works-beside : Works cache_beside see
Works-beside = record {
  get_ok = λ k (o, m). Works-in_memory.get_ok k m;
  get_see = λ k j (o, m). Works-in_memory.get_see k j m;
  set_ok = λ k v ex (o, m). Works-in_memory.set_ok k v ex m;
  set_see = λ k j v ex (o, m). Works-in_memory.set_see k j v ex m;
  delete_ok = λ k (o, m). Works-in_memory.delete_ok k m;
  delete_see = λ k j (o, m). Works-in_memory.delete_see k j m;
}

pub Apart-beside : Apart cache_beside rows
Apart-beside = record {
  get_rows = λ k n (o, m). refl;
  set_rows = λ k v ex n (o, m). refl;
  delete_rows = λ k n (o, m). refl;
}

pub Leaves-shared : Leaves shared see rows
Leaves-shared = record {
  left_ok = λ k v (o, m). refl;
  left_rows = λ k v n (o, m). refl;
  left_see = λ k j v (o, m). view-change_entry k j v m (Dict.get m.store k) refl;
}

abbrev pub moment_in : Option ℤ → Option ℕ
moment_in none = none
moment_in (some n) = elim n [ pos t ↦ some t | negsuc t ↦ none ]

-- Moments are written as numbers.
abbrev pub formats : Formats
formats = record {
  isoformat = show;
  fromisoformat = λ s. moment_in (parse_int s);
  loads = λ s. none;
}

unread : (t : ℕ) → ◌≡◌ {A = Option ℤ} (some (pos t)) (parse_int "") → ⊥
unfolding parse_int
unread t e = cc

pub Iso-formats : Iso formats
Iso-formats = record {
  reads_back = λ t. ap moment_in (parse_int-show t);
  not_empty = λ t. elim (Bool-cases (show t == "")) [
    | inr filled ↦ filled
    | inl blank ↦ absurd (unread t (sym (parse_int-show t) ∙ ap parse_int ((eq_iff _ _).0 blank)))
  ];
}

pub Stamped-acme : (r : String × String) → Stamped (acme r)
unfolding post_init
Stamped-acme (slug, status) = record {
  created = 7;
  updated = 7;
  created_lem = refl;
  updated_lem = refl;
  settled = λ now. refl;
}

-- A stored row is the one row.
the_row :
    (n : ℕ) (o : Row) (t : Tenant)
    → (if nat_eq n 1 then Option.map acme o else none) ≡ some t
    → (r : String × String) × (t ≡ acme r) × (n ≡ 1)
the_row n none t e = absurd (ground arith)
the_row n (some r) t e = (r, ground arith, ground (arith, nat_eq_iff n 1))

stays_in :
    (n : ℕ) (x : String) (o : Row) (m : Mem)
    → rows (write n x (o, m)).1 n ≡ none
    → rows (o, m) n ≡ none
stays_in n x none m e = ground arith
stays_in n x (some r) m e = ground arith

other_row :
    (n j : ℕ) (o p : Row) (m : Mem)
    → nat_eq n j ≡ false
    → rows (if nat_eq n 1 then p else o, m) j ≡ rows (o, m) j
other_row n j o p m h = ground (arith, nat_eq_iff n 1, nat_eq_iff j 1, nat_eq_iff n j)

Updates-write : (n : ℕ) (x : String) → Updates see rows n (write n x)
Updates-write n x = record {
  answers = λ (o, m). inr refl;
  stays = λ (o, m) e. stays_in n x o m e;
  update_rows = λ j (o, m) h. other_row n j o (with_status x o) m h;
  update_see = λ k (o, m). refl;
}

found_slug :
    (slug : String) (o : Row) (m : Mem)
    → (by_slug slug o ≡ none)
      ⊎ ((n : ℕ) × (t : Tenant) × (by_slug slug o ≡ some t) × (rows (o, m) n ≡ some t))
found_slug slug none m = inl refl
found_slug slug (some (own, status)) m = elim (Bool-cases (own == slug)) [
  | inl same ↦ inr (1, acme (own, status), rw same refl, refl)
  | inr other ↦ inl (rw other refl)
]

pub Stores-one_row : Stores formats one_row write see rows
Stores-one_row = record {
  reads = λ n s. refl;
  own_id = λ n t (o, m) e. let (r, same, one) = the_row n o t e in rw same (ap some (sym one));
  stamps = λ n t (o, m) e.
      let (r, same, one) = the_row n o t e in subst Stamped (sym same) (Stamped-acme r);
  by_slug = λ slug (o, m). elim (found_slug slug o m) [
    | inl e ↦ inl (rw e refl)
    | inr (n, t, e, row) ↦ inr (n, t, rw e refl, row)
  ];
  lists = λ (o, m). (_, refl);
  creates = λ t (o, m). inr (record {
    id = 1;
    made = acme ("acme", t.status);
    made_id = refl;
    answer = refl;
    made_row = refl;
    other_rows = λ j h. ground (arith, nat_eq_iff 1 j, nat_eq_iff j 1);
    create_see = λ k. refl;
  });
  updates = λ n fs. Updates-write n "active";
  updates_status = Updates-write;
  writes_delete = λ n. record {
    write_ok = λ (o, m). refl;
    write_rows = λ j (o, m) h. other_row n j o none m h;
    write_see = λ k (o, m). refl;
  };
}
