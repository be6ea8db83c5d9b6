-- ===== src/Tests/Requests.antt =====
-- Requests: rate limits, roles and tenants.
use mathlib.Core.Option
use clean_architecture_saas.Prelude.{
  ◌≡◌, ◌↔◌, refl, true, Option, none, some, List, [], ◌∷◌, keep, first, arith,
}
use clean_architecture_saas.Python.Exec.{ok}
use clean_architecture_saas.Python.Dict
use clean_architecture_saas.Python.Int.{ℤ, pos, negsuc}
use clean_architecture_saas.Python.Text
use clean_architecture_saas.Domain.User.{User, post_init}
use clean_architecture_saas.Cache.InMemory.{in_memory, tick}
use clean_architecture_saas.Cache.InMemory.Laws.{view}
use clean_architecture_saas.Db.ListTable.{list_table}
use clean_architecture_saas.Users.Repository
use clean_architecture_saas.Users.Repository.{sql_users}
use clean_architecture_saas.Access.RateLimit.{Caller, limits, limit, rate_key, require_rate_limit}
use clean_architecture_saas.Access.RateLimit.Window.{window_lem, requests, answer}
use clean_architecture_saas.Access.Permissions.{check_user_access, user_at}
use clean_architecture_saas.Access.Permissions.Isolation.{access_iff, Reaches}
use clean_architecture_saas.Access.Hierarchy.{Target, require_role_hierarchy}
use clean_architecture_saas.Access.Hierarchy.Order.{hierarchy_iff, Manages}
use clean_architecture_saas.Tests.World.{alice, bob, empty_cache, tenant_of, claims_of}

abbrev caller : Caller
caller = record {
  ip = some "10.0.0.1";
  path = "/api/v1/auth/login";
  tenant = some (tenant_of 1 "active");
}

calls_two : limit (limits caller.tenant) "calls" 10 ≡ ok (pos 2)
unfolding limit limits
calls_two = refl

period_thirty : limit (limits caller.tenant) "period" 60 ≡ ok (pos 30)
unfolding limit limits Text.parse_int
period_thirty = refl

no_counter : view empty_cache (rate_key caller) ≡ none
unfolding view Dict.get
no_counter = refl

window_lem_example :
    ((require_rate_limit in_memory caller empty_cache).0 ≡ answer 0 2)
    × ((require_rate_limit in_memory caller (
          tick 3 (
            requests caller 2 30 calls_two period_thirty
              (5 ∷ 1 ∷ [])
              (require_rate_limit in_memory caller empty_cache).1))).0
        ≡ answer 3 2)
window_lem_example =
    window_lem caller 2 30 calls_two period_thirty (5 ∷ 1 ∷ []) 3 empty_cache no_counter
      (omega arith)

abbrev people : List User
people = alice ∷ bob ∷ []

abbrev stored : ℤ → Option User
stored n = elim n [
  | pos k ↦ Option.map (Repository.of_row 50) (first (keep (Repository.has_id k) people))
  | _ ↦ none
]

stored-reads : (n : ℤ) → user_at (sql_users list_table 50) n people ≡ (ok (stored n), people)
unfolding Repository.get_by_id
stored-reads (pos k) = refl
stored-reads (negsuc k) = refl

abbrev onto_bob : Target
onto_bob = record { target_user_id = some (pos 2); id = none; query_role = none; body = none }

access_iff_example :
    ((check_user_access
        (sql_users list_table 50)
        (pos 2)
        (claims_of "1")
        ("read_tenant_users" ∷ [])
        true
        people).0
      ≡ ok tt)
    ↔ Reaches ("read_tenant_users" ∷ []) (claims_of "1") true (pos 1) (pos 2) (some bob)
unfolding Repository.get_by_id post_init Text.parse_int
access_iff_example =
    access_iff (sql_users list_table 50) (claims_of "1") ("read_tenant_users" ∷ []) true (pos 1)
      (pos 2) (some bob) people people refl refl

hierarchy_iff_example :
    ((require_role_hierarchy (sql_users list_table 50) onto_bob (some (claims_of "1")) people).0
      ≡ ok true)
    ↔ Manages stored onto_bob (pos 1)
unfolding Text.parse_int
hierarchy_iff_example =
    hierarchy_iff (sql_users list_table 50) stored people stored-reads onto_bob
      (some (claims_of "1")) (pos 1) refl
