-- ===== src/Tests/Tenants.antt =====
-- The cache of tenants, over one row.
use clean_architecture_saas.Prelude.{ℕ, ◌≡◌, some, List, [], ◌∷◌, arith}
use clean_architecture_saas.Python.Dict
use clean_architecture_saas.Python.Dict.{get-put}
use clean_architecture_saas.Python.Exec.{ok, raised, failure}
use clean_architecture_saas.Python.Value.{Value, dict}
use clean_architecture_saas.Cache.InMemory.Laws.{view}
use clean_architecture_saas.Cache.Keys.{tenant_id}
use clean_architecture_saas.Tenants.Cached.{tenant_fields, deserialize_tenant}
use clean_architecture_saas.Tenants.Cached.RoundTrip.{reads_spoil}
use clean_architecture_saas.Tenants.Caching.{get_by_id}
use clean_architecture_saas.Tenants.Caching.Beside.{Fits}
use clean_architecture_saas.Tenants.Caching.Coherence.{
  Command, read, set_status, remove, look_up, reads_current, perform_all,
}
use clean_architecture_saas.Tests.World.{empty_cache}
use clean_architecture_saas.Tests.OneTenant.{
  acme, Both, rows, see, write, one_row, cache_beside, shared, Works-beside, Apart-beside,
  Leaves-shared, formats, Iso-formats, Stamped-acme, Stores-one_row,
}

abbrev start : Both
start = (some ("acme", "active"), empty_cache)

-- A read caches the tenant, the second one changes the cached dictionary, and then it is suspended.
abbrev commands : List (ℕ × Command)
commands =
    (10, read 1)
    ∷ (11, read 1)
    ∷ (12, set_status 1 "suspended")
    ∷ (13, look_up "acme")
    ∷ (14, remove 2)
    ∷ []

nothing_cached :
    (n : ℕ) (v : Value) → see start (tenant_id n) ≡ some v → Fits formats see rows (rows start n) v
unfolding view Dict.get
nothing_cached n v e = absurd (ground arith)

reads_current_example :
    (get_by_id formats 20 one_row write cache_beside shared 60 1 (
      perform_all Iso-formats one_row write cache_beside shared 60 see rows Works-beside
        Stores-one_row Apart-beside Leaves-shared commands start)).0
    ≡ ok (
        rows
          (perform_all Iso-formats one_row write cache_beside shared 60 see rows Works-beside
            Stores-one_row Apart-beside Leaves-shared commands start)
          1)
reads_current_example =
    reads_current Iso-formats one_row write cache_beside shared 60 see rows Works-beside
      Stores-one_row Apart-beside Leaves-shared commands 20 1 start nothing_cached

reads_spoil_example :
    let (r, v) =
      deserialize_tenant formats 20 (dict (tenant_fields formats (acme ("acme", "active")))) in
    (r ≡ ok (some (acme ("acme", "active"))))
    × (deserialize_tenant formats 21 v ≡ (raised (failure "argument must be str"), v))
reads_spoil_example =
    reads_spoil formats Iso-formats 20 21 (acme ("acme", "active"))
      (Stamped-acme ("acme", "active"))
