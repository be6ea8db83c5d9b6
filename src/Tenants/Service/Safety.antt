-- ===== src/Tenants/Service/Safety.antt =====
-- A canceled tenant stays canceled, whatever the service is asked, and a suspension that succeeds
-- was allowed by the state machine.
use mathlib.Core.Option
use clean_architecture_saas.Prelude.{
  ℕ, String, ◌≡◌, refl, ◌∙◌, ap, true, false, Option, none, some, List, [], ◌∷◌, map, arith,
  Bool-cases, inl, inr, nat_eq_iff,
}
use clean_architecture_saas.Python.Exec.{Result, ok, raised, Exec, ◌>>=◌, and_then}
use clean_architecture_saas.Python.Value.{text, field, end}
use clean_architecture_saas.Domain.Tenant.{Tenant, can_transition_to, post_init}
use clean_architecture_saas.Domain.Tenant.Lifecycle.{Is, canceled, canceled_stuck}
use clean_architecture_saas.Db.Table.{Table, Documented, same_id}
use clean_architecture_saas.Tenants.Repository.{sql_tenants, get_by_id, update, has_id, of_row}
use clean_architecture_saas.Tenants.Repository.Laws.{
  find, find-map, find-id, get_by_id_lem, update_status_lem, set_status, written,
}
use clean_architecture_saas.Tenants.Service.{
  suspend_tenant, activate_tenant, cancel_tenant, transition, checked,
}

pub data Command : Type 0 where
  suspend activate cancel : ℕ → Command

stuck_row :
    (now : ℕ) (t : Tenant) (target : String)
    → Is canceled t.status
    → can_transition_to (of_row now t) target ≡ false
unfolding post_init
stuck_row now t target h = canceled_stuck (of_row now t) target h

same_number : (o : Option ℕ) (n m : ℕ) → same_id o n ≡ true → same_id o m ≡ true → n ≡ m
same_number none n m h k = ground arith
same_number (some i) n m h k = ground (arith, nat_eq_iff i n, nat_eq_iff i m)

module _ {S : Type 0} (table : Table S Tenant) (rows : S → List Tenant)
    (documented : Documented table rows) (now : ℕ) where
  abbrev pub obey : Command → Exec S Tenant
  obey (suspend n) = suspend_tenant (sql_tenants table now) n
  obey (activate n) = activate_tenant (sql_tenants table now) n
  obey (cancel n) = cancel_tenant (sql_tenants table now) n

  -- The requests one after the other, each in its own handler, whether or not it raises.
  unfoldable pub obey_all : List Command → S → S
  obey_all [] s = s
  obey_all (c ∷ cs) s = obey_all cs (obey c s).1

  kept_written :
      (n m : ℕ) (t : Tenant) (target : String) (s : S)
      → find (rows s) n ≡ some t
      → has_id m t ≡ false
      → find (map (written m (set_status now target)) (rows s)) n ≡ some t
  kept_written n m t target s at other =
      find-map (rows s) m n (set_status now target) (λ r. refl)
      ∙ ap (Option.map (written m (set_status now target))) at
      ∙ ground arith

  -- The row that the service reads is not the canceled one if it may move.
  other_row :
      (target : String) (n m : ℕ) (t r : Tenant) (s : S)
      → find (rows s) n ≡ some t
      → Is canceled t.status
      → find (rows s) m ≡ some r
      → can_transition_to (of_row now r) target ≡ true
      → has_id m t ≡ false
  other_row target n m t r s at h e may = elim (Bool-cases (has_id m t)) [
    | inr other ↦ other
    | inl same ↦ ground (
      arith,
      same_number t.id n m (find-id (rows s) n t at) same,
      ap (find (rows s)) (same_number t.id n m (find-id (rows s) n t at) same),
      stuck_row now t target h,
    )
  ]

  checked_state :
      (p : Result (Option Tenant) × S)
      → (and_then p.0 (checked (sql_tenants table now)) p.1).1 ≡ p.1
  checked_state (ok none, s) = refl
  checked_state (ok (some t), s) = refl
  checked_state (raised e, s) = refl

  rows_after :
      (verb target : String) (m : ℕ) (r : Tenant) (s : S)
      → can_transition_to (of_row now r) target ≡ true
      → rows (transition (sql_tenants table now) verb target m (some (of_row now r)) s).1
        ≡ map (written m (set_status now target)) (rows s)
  rows_after verb target m r s may = ground (
    arith,
    checked_state (update table now m (field "status" (text target) end) s),
    update_status_lem table rows documented now m target s,
  )

  kept_transition :
      (verb target : String) (n m : ℕ) (t : Tenant) (s : S) (o : Option Tenant)
      → find (rows s) n ≡ some t
      → Is canceled t.status
      → find (rows s) m ≡ o
      → find
          (rows (transition (sql_tenants table now) verb target m (Option.map (of_row now) o) s).1)
          n
        ≡ some t
  kept_transition verb target n m t s none at h e = at
  kept_transition verb target n m t s (some r) at h e =
      elim (Bool-cases (can_transition_to (of_row now r) target)) [
        | inr stuck ↦ ground arith
        | inl may ↦ ground (
          arith,
          rows_after verb target m r s may,
          kept_written n m t target s at (other_row target n m t r s at h e may),
        )
      ]

  kept_step :
      (verb target : String) (n m : ℕ) (t : Tenant) (s : S)
      → find (rows s) n ≡ some t
      → Is canceled t.status
      → find
          (rows
            ((do o ← get_by_id table now m; transition (sql_tenants table now) verb target m o)
              s).1)
          n
        ≡ some t
  kept_step verb target n m t s at h = ground (
    arith,
    get_by_id_lem table rows documented now m s,
    kept_transition verb target n m t s (find (rows s) m) at h refl,
  )

  kept_obey :
      (c : Command) (n : ℕ) (t : Tenant) (s : S)
      → find (rows s) n ≡ some t
      → Is canceled t.status
      → find (rows (obey c s).1) n ≡ some t
  unfolding suspend_tenant activate_tenant cancel_tenant
  kept_obey (suspend m) n t s at h = kept_step "suspend" "suspended" n m t s at h
  kept_obey (activate m) n t s at h = kept_step "activate" "active" n m t s at h
  kept_obey (cancel m) n t s at h = kept_step "cancel" "canceled" n m t s at h

  -- Over a table with the documented behaviour, the row of a canceled tenant is the same after any
  -- sequence of suspensions, activations and cancellations, of that tenant and of others.
  pub canceled_forever :
      (cs : List Command) (n : ℕ) (t : Tenant) (s : S)
      → find (rows s) n ≡ some t
      → Is canceled t.status
      → find (rows (obey_all cs s)) n ≡ some t
  unfolding obey_all
  canceled_forever [] n t s at h = at
  canceled_forever (c ∷ cs) n t s at h =
      canceled_forever cs n t (obey c s).1 (kept_obey c n t s at h) h
