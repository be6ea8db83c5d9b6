-- ===== src/Tenants/Repository/Laws.antt =====
-- What the repository's statements do to the stored tenants.
use mathlib.Core.Option
use clean_architecture_saas.Prelude.{
  ℕ, String, ◌≡◌, refl, true, Option, some, List, [], ◌∷◌, map, arith, if◌then◌else◌, first, keep,
}
use clean_architecture_saas.Python.Exec.{ok}
use clean_architecture_saas.Python.Value.{text, field, end}
use clean_architecture_saas.Domain.Tenant.{Tenant}
use clean_architecture_saas.Db.Table.{Table, Documented}
use clean_architecture_saas.Tenants.Repository.{has_id, of_row, get_by_id, update}

-- The stored row with an id.
unfoldable pub find : List Tenant → ℕ → Option Tenant
find rows n = first (keep (has_id n) rows)

abbrev pub set_status : ℕ → String → Tenant → Tenant
set_status now status t = record t { status = status; updated_at = some now }

abbrev pub written : ℕ → (Tenant → Tenant) → Tenant → Tenant
written n f t = if has_id n t then f t else t

pub find-map :
    (rows : List Tenant) (n j : ℕ) (f : Tenant → Tenant)
    → ((t : Tenant) → (f t).id ≡ t.id)
    → find (map (written n f) rows) j ≡ Option.map (written n f) (find rows j)
unfolding find
find-map [] n j f h = refl
find-map (t ∷ rows) n j f h = ground (arith, h t, find-map rows n j f h)

pub find-id : (rows : List Tenant) (n : ℕ) (t : Tenant) → find rows n ≡ some t → has_id n t ≡ true
unfolding find
find-id [] n t e = cc
find-id (r ∷ rows) n t e = ground (arith, find-id rows n t)

module _ {S : Type 0} (table : Table S Tenant) (rows : S → List Tenant)
    (documented : Documented table rows) (now : ℕ) where
  pub get_by_id_lem :
      (n : ℕ) (s : S)
      → get_by_id table now n s ≡ (ok (Option.map (of_row now) (find (rows s) n)), s)
  unfolding get_by_id find
  get_by_id_lem n s = ground (arith, documented.select_lem (has_id n) s)

  pub update_status_lem :
      (n : ℕ) (status : String) (s : S)
      → let out = update table now n (field "status" (text status) end) s in
        (out.0 ≡ ok (Option.map (of_row now) (find (rows out.1) n)))
        × (rows out.1 ≡ map (written n (set_status now status)) (rows s))
  unfolding update get_by_id
  update_status_lem n status s = ground (
    arith,
    documented.update_ok (has_id n) (set_status now status) s,
    documented.update_rows (has_id n) (set_status now status) s,
    get_by_id_lem n (table.update (has_id n) (set_status now status) s).1,
  )
