-- ===== src/Tests/Routers.antt =====
-- The routers about tokens and addresses, on a small world.
use clean_architecture_saas.Prelude.{
  ℕ, String, ◌≡◌, ◌≢◌, ◌↔◌, refl, true, Option, none, some, List, [], ◌∷◌, nat_eq, if◌then◌else◌,
  arith, ◌==◌, inl, inr,
}
use clean_architecture_saas.Python.Dict
use clean_architecture_saas.Python.Exec.{Result, handle, ok, raised, pure, raise, failure, is_ok}
use clean_architecture_saas.Python.Value.{Value, text, end, field, Fields}
use clean_architecture_saas.Domain.User.{User}
use clean_architecture_saas.Cache.Keys.{◌&◌, session}
use clean_architecture_saas.Cache.InMemory.{delete, incr, expire, set}
use clean_architecture_saas.Cache.InMemory.Laws.{set-ok}
use clean_architecture_saas.Db.Session.{Pending, Aside}
use clean_architecture_saas.Cache.Documented.{Works, Works-in_memory}
use clean_architecture_saas.Cache.InMemory.Laws.{view}
use clean_architecture_saas.Domain.Auth.{TokenClaims}
use clean_architecture_saas.Db.Table.{Table, Documented, Inserts}
use clean_architecture_saas.Access.RateLimit.{Caller, require_rate_limit, rate_key}
use clean_architecture_saas.Tokens.Refresh.{
  RefreshToken, BlacklistedToken, sql_tokens, find_by_token_hash, blacklist_token,
  add_session_cache,
}
use clean_architecture_saas.Tokens.EmailTokens
use clean_architecture_saas.Users.Repository.{UserRepository}
use clean_architecture_saas.Users.Service.{EmailTokenRepository}
use clean_architecture_saas.Routers.Auth.{
  Deps, LogoutRequest, logout_token, revoked_reply, refresh, logout,
}
use clean_architecture_saas.Routers.Auth.Setting.{
  on_tables, Elsewhere, Command, renew, sign_out, perform_all,
}
use clean_architecture_saas.Routers.Auth.Barred.{Uncached, logged_out}
use clean_architecture_saas.Routers.Auth.Answers.{refresh_iff, Admits}
use clean_architecture_saas.Auth.CurrentUser.{get_current_user}
use clean_architecture_saas.Tests.World.{
  World, alice, world, committed, close, refresh_table, blacklist_table, world_cache, py, plain,
  token_of,
}

-- Users that are only read.
abbrev still_users : UserRepository World
still_users = record {
  create = λ u. raise (failure "read only");
  get_by_email = λ tid email. pure none;
  get_by_email_global = λ email. pure (if email == "alice@example.com" then some alice else none);
  get_by_id = λ n. pure (if nat_eq n 1 then some alice else none);
  list_by_tenant = λ tid. pure [];
  delete = λ n. pure tt;
  update = λ n fs. pure (some alice);
  set_password = λ n h. pure tt;
  update_last_login = λ n t. pure tt;
  set_email = λ n e. pure tt;
}

abbrev mail_tokens : EmailTokenRepository World
mail_tokens = record {
  create_token = λ uid t p fs ttl. EmailTokens.create_token world_cache uid t p fs ttl;
  consume_token = λ t. EmailTokens.consume_token world_cache t;
}

-- A hash that is injective, and a generator of one text.
abbrev hash : String → String
hash t = "h" & t

abbrev pub deps : Deps World
deps = record {
  users = still_users;
  tokens = sql_tokens refresh_table blacklist_table world_cache 50 none;
  cache = world_cache;
  audit = none;
  email_tokens = some mail_tokens;
  sender = none;
  crypt = plain;
  token_urlsafe = pure "fresh";
  encode = λ fs. "jwt";
  sha256 = hash;
  ttl = 900;
  now = 50;
}

abbrev refreshes : Table World RefreshToken
refreshes = record refresh_table { commit = λ w. (ok tt, committed w) }

abbrev barreds : Table World BlacklistedToken
barreds = record blacklist_table { commit = λ w. (ok tt, committed w) }

abbrev there : Deps World
there = on_tables deps refreshes barreds none

Documented-refreshes : Documented refreshes (λ w. w.refresh)
Documented-refreshes = record {
  select_lem = λ p w. refl;
  update_ok = λ p f w. refl;
  update_rows = λ p f w. refl;
  delete_ok = λ p w. refl;
  delete_rows = λ p w. refl;
}

Documented-barreds : Documented barreds (λ w. w.blacklist)
Documented-barreds = record {
  select_lem = λ p w. refl;
  update_ok = λ p f w. refl;
  update_rows = λ p f w. refl;
  delete_ok = λ p w. refl;
  delete_rows = λ p w. refl;
}

Inserts-barreds : Inserts barreds (λ w. w.blacklist)
Inserts-barreds = record { add_lem = λ r w. inr (refl, refl); commit_rows = λ w. refl }

Pending-barreds : Pending barreds (λ w. w.blacklist) (λ w. w.committed_blacklist)
Pending-barreds = record {
  add_durable = λ r w. refl;
  update_durable = λ p f w. refl;
  commit_lem = λ w. inr refl;
}

Aside-refreshes : Aside refreshes (λ w. w.blacklist) (λ w. w.committed_blacklist)
Aside-refreshes = record {
  adds = λ r w. (refl, inl refl);
  updates = λ p f w. (refl, inl refl);
  commits = λ w. (refl, inr refl);
}

no_log : {A : Type 0} (a : A) → none ≡ some a → ⊥
no_log a e = cc

-- Everything here but the tables leaves the blacklist alone.
Elsewhere-barreds : Elsewhere deps (λ w. w.blacklist) (λ w. w.committed_blacklist)
Elsewhere-barreds = record {
  reads_id = λ n w. (refl, inl refl);
  reads_email = λ e w. (refl, inl refl);
  logs_in = λ n t w. (refl, inl refl);
  verifies = λ p h w. (refl, inl refl);
  draws = λ w. (refl, inl refl);
  audits = λ r w v e x. absurd (no_log r x);
  gets = λ k w. (refl, inl refl);
  sets = λ k v ex w. (refl, inl refl);
  incrs = λ k w. (refl, inl refl);
  expires = λ k n w. (refl, inl refl);
  deletes = λ k w. (refl, inl refl);
}

abbrev pub see : World → String → Option Value
see w = view w.cache

pub Works-world : Works world_cache see
Works-world = record {
  get_ok = λ k w. Works-in_memory.get_ok k w.cache;
  get_see = λ k j w. Works-in_memory.get_see k j w.cache;
  set_ok = λ k v ex w. Works-in_memory.set_ok k v ex w.cache;
  set_see = λ k j v ex w. Works-in_memory.set_see k j v ex w.cache;
  delete_ok = λ k w. Works-in_memory.delete_ok k w.cache;
  delete_see = λ k j w. Works-in_memory.delete_see k j w.cache;
}

Uncached-barreds : Uncached barreds close see
Uncached-barreds = record {
  add_see = λ r k w. refl;
  commit_see = λ k w. refl;
  close_see = λ k w. refl;
}

abbrev pub caller : Caller
caller = record { ip = some "10.0.0.1"; path = "/api/v1/auth/refresh"; tenant = none }

abbrev goodbye : String → LogoutRequest
goodbye t = record {
  session_id = some t;
  body = raised (failure "no body");
  form = raised (failure "no form");
}

abbrev later : List Command
later = renew caller "2" ∷ sign_out (goodbye "3") ∷ []

abbrev claims_payload : Fields
claims_payload = field "sub" (text "1") end

said_access : logout_token (goodbye "jwt") ≡ text "jwt"
unfolding logout_token
said_access = refl

answered : (logout there (goodbye "jwt") world).0 ≡ ok (revoked_reply true)
unfolding logout find_by_token_hash blacklist_token session delete
answered = refl

logged_out_example :
    (see (close (logout there (goodbye "jwt") world).1) (session (hash "jwt")) ≡ none)
    × ((claims : TokenClaims)
        → (get_current_user py
            (λ t. ok claims_payload)
            hash
            (some (sql_tokens refreshes barreds world_cache 60 none))
            world_cache
            900
            none
            "jwt"
            (perform_all there close later (close (logout there (goodbye "jwt") world).1))).0
          ≢ ok claims)
logged_out_example =
    logged_out deps refreshes barreds none (λ w. w.refresh) (λ w. w.blacklist)
      (λ w. w.committed_blacklist) Documented-refreshes Documented-barreds Inserts-barreds
      Pending-barreds Elsewhere-barreds Aside-refreshes close
      (record { close_seen = λ w. refl; close_durable = λ w. refl }) see Works-world
      Uncached-barreds "jwt" later py (λ t. ok claims_payload) 60 (goodbye "jwt") world
      (revoked_reply true) said_access refl refl refl answered (omega arith)

abbrev stored : ℕ → Option User
stored n = if nat_eq n 1 then some alice else none

sets_ok :
    (k : String) (v : Value) (ex : Option ℕ) (w : World) → (world_cache.set k v ex w).0 ≡ ok tt
sets_ok k v ex w = set-ok k v ex w.cache

handled : (r : Result (Unit {0})) (w : World) → (handle r (λ e. pure tt) w).0 ≡ ok tt
handled (ok tt) w = refl
handled (raised e) w = refl

adds_ok :
    (uid : ℕ) (h t : String) (ex : Option ℕ) (w : World)
    → (deps.tokens.add_session_cache uid h t ex w).0 ≡ ok tt
unfolding add_session_cache
adds_ok uid h t ex w = handled _ _

abbrev limited : World
limited = (require_rate_limit world_cache caller world).1

passes : require_rate_limit world_cache caller world ≡ (ok tt, limited)
unfolding require_rate_limit incr expire rate_key set Dict.get Dict.put
passes = refl

finds : deps.tokens.find_by_token_hash (hash "1") limited ≡ (ok (some (token_of 1 "h1")), limited)
unfolding find_by_token_hash require_rate_limit incr expire rate_key Dict.get Dict.put
finds = refl

refresh_iff_example :
    (is_ok (refresh deps caller "1" world).0 ≡ true)
    ↔ Admits deps sets_ok adds_ok stored (some (token_of 1 "h1"))
refresh_iff_example =
    refresh_iff deps sets_ok adds_ok stored limited (λ n. refl) caller "1" world
      (some (token_of 1 "h1")) passes finds
