-- ===== src/Tests/Accounts.antt =====
-- Users: the cache around the repository, the service, and the password check.
use clean_architecture_saas.Prelude.{String, ◌≡◌, refl, ◌↔◌, true, none, some, List, [], ◌∷◌, map}
use clean_architecture_saas.Python.Exec.{ok, Exec, pure}
use clean_architecture_saas.Python.Value.{text, end, field}
use clean_architecture_saas.Python.Dict
use clean_architecture_saas.Python.Int.{pos}
use clean_architecture_saas.Domain.User.{User, post_init}
use clean_architecture_saas.Cache.InMemory.{get}
use clean_architecture_saas.Cache.InMemory.Laws.{view}
use clean_architecture_saas.Db.ListTable.{list_table, Documented-list_table}
use clean_architecture_saas.Tests.World.{alice, bob, users_and_cache, plain}
use clean_architecture_saas.Users.Password.{validate_password_strength, validate_iff, IsStrong}
use clean_architecture_saas.Users.Repository
use clean_architecture_saas.Users.Repository.{sql_users, update}
use clean_architecture_saas.Users.Repository.Laws.{update_guards, guarded}
use clean_architecture_saas.Users.Service.{
  EmailTokenRepository, authenticate_global, reset_password,
}
use clean_architecture_saas.Users.Service.Safety.{authenticate_iff, reset_any_purpose}
use clean_architecture_saas.Users.Caching.{get_by_id, get_by_email}
use clean_architecture_saas.Users.Caching.Coherence.{
  Command, read, change, new_password, new_email, reads_fresh, perform_all,
}
use clean_architecture_saas.Users.Caching.Beside.{Coherent}
use clean_architecture_saas.Users.Caching.Leak.{tenant_ignored}
use clean_architecture_saas.Users.Caching.Store.{
  users_table, cache_beside, see_beside, stored_users, Works-beside, Apart-beside, Stores-list,
}

abbrev commands : List Command
commands =
    read 1
    ∷ change 1 (field "role" (text "tenant_admin") end)
    ∷ new_password 1 "new hash"
    ∷ read 1
    ∷ new_email 1 "al@example.com"
    ∷ []

none-some : {A : Type 0} (a : A) → none ≡ some a → ⊥
none-some a e = cc

-- An empty cache holds nothing that could be stale.
nothing_cached : Coherent see_beside (stored_users 50) users_and_cache
unfolding view Dict.get
nothing_cached n v e = absurd (none-some v e)

reads_fresh_example :
    (get_by_id (sql_users users_table 50) (some cache_beside) 60 1 (
      perform_all
        (sql_users users_table 50)
        cache_beside
        60
        see_beside
        (stored_users 50)
        Works-beside
        (Stores-list 50)
        (Apart-beside 50)
        commands
        users_and_cache)).0
    ≡ ok (
        stored_users 50
          (perform_all
            (sql_users users_table 50)
            cache_beside
            60
            see_beside
            (stored_users 50)
            Works-beside
            (Stores-list 50)
            (Apart-beside 50)
            commands
            users_and_cache)
          1)
reads_fresh_example =
    reads_fresh (sql_users users_table 50) cache_beside 60 see_beside (stored_users 50) Works-beside
      (Stores-list 50) (Apart-beside 50) commands 1 users_and_cache nothing_cached

tenant_ignored_example :
    (get_by_email
      (sql_users users_table 50)
      (some cache_beside)
      60
      2
      "alice@example.com"
      (get_by_email
        (sql_users users_table 50)
        (some cache_beside)
        60
        1
        "alice@example.com"
        users_and_cache).1).0
    ≡ ok (some alice)
unfolding view get Repository.get_by_email post_init Dict.get
tenant_ignored_example =
    tenant_ignored (sql_users users_table 50) cache_beside see_beside Works-beside 59 1 2 1
      "alice@example.com" alice users_and_cache users_and_cache refl refl refl

update_guards_example :
    map guarded
      (update list_table 50 1
        (field "email" (text "x") (field "role" (text "guest") end))
        (alice ∷ bob ∷ [])).1
    ≡ map guarded (alice ∷ bob ∷ [])
update_guards_example =
    update_guards list_table (λ s. s) Documented-list_table 50 1
      (field "email" (text "x") (field "role" (text "guest") end)) (alice ∷ bob ∷ [])

abbrev draw : Exec (List User) String
draw = pure "fresh"

-- Tokens that are for a purpose, and stay.
abbrev tokens_for : String → EmailTokenRepository (List User)
tokens_for purpose = record {
  create_token = λ uid token p extra ttl. pure tt;
  consume_token = λ token.
      pure (some (record { user_id = pos 1; purpose = some (text purpose); extra = none }));
}

authenticate_iff_example :
    ((authenticate_global
        (sql_users list_table 50)
        plain
        none
        draw
        50
        "bob@example.com"
        "old hash"
        (alice ∷ bob ∷ [])).0
      ≡ ok (some bob))
    ↔ ((some bob ≡ some bob)
        × (bob.is_active ≡ some true)
        × ((plain.verify "old hash" bob.hashed_password (alice ∷ bob ∷ [])).0 ≡ ok true))
unfolding Repository.get_by_email_global post_init
authenticate_iff_example =
    authenticate_iff (sql_users list_table 50) plain none draw 50 "bob@example.com" "old hash" bob
      (some bob) (alice ∷ bob ∷ []) (alice ∷ bob ∷ []) refl

reset_any_purpose_example :
    reset_password
      (sql_users list_table 50)
      plain
      (some (tokens_for "password_reset"))
      draw
      50
      "token"
      "Str0ng-enough"
      (alice ∷ bob ∷ [])
    ≡ reset_password
        (sql_users list_table 50)
        plain
        (some (tokens_for "email_update"))
        draw
        50
        "token"
        "Str0ng-enough"
        (alice ∷ bob ∷ [])
reset_any_purpose_example =
    reset_any_purpose (sql_users list_table 50) plain draw 50 (tokens_for "password_reset")
      (tokens_for "email_update") "token" "Str0ng-enough"
      (record { user_id = pos 1; purpose = some (text "password_reset"); extra = none })
      (record { user_id = pos 1; purpose = some (text "email_update"); extra = none })
      (alice ∷ bob ∷ []) (alice ∷ bob ∷ []) refl refl refl

validate_iff_example :
    ((validate_password_strength "Str0ng-enough").0 ≡ true) ↔ IsStrong "Str0ng-enough"
validate_iff_example = validate_iff "Str0ng-enough"
