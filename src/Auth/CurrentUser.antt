-- ===== src/Auth/CurrentUser.antt =====
-- deps/injection.py: `get_current_user` and `get_current_tenant_id`, with `AuthService.verify_token`
-- of services/auth_service.py. `jwt.decode` under the service's secret and SHA-256 are parameters;
-- the logging is left out.
pub mod Checks
use clean_architecture_saas.Prelude.{
  ℕ, String, Bool, true, false, Option, none, some, if◌then◌else◌,
}
use clean_architecture_saas.Python.Exec.{
  Exc, value_error, attribute_error, http, failure, Result, ok, raised, Exec, pure, raise, lift,
  attempt, bind, ◌>>=◌, ◌>>◌,
}
use clean_architecture_saas.Python.Value.{Value, text, truthy, Fields, or_nul}
use clean_architecture_saas.Domain.Auth.{TokenClaims, Conversions, from_payload}
use clean_architecture_saas.Domain.Tenant.{Tenant}
use clean_architecture_saas.Cache.Client.{CacheClient}
use clean_architecture_saas.Cache.Keys.{session}
use clean_architecture_saas.Tokens.Refresh.{TokensRepository}

-- The tenant that the middleware put into the state of the request.
unfoldable pub get_current_tenant_id : Option Tenant → Result ℕ
get_current_tenant_id none = raised (http 404 "Tenant not found")
get_current_tenant_id (some t) = elim t.id [
  | none ↦ raised (http 404 "Tenant ID not available")
  | some n ↦ ok n
]

module _ (py : Conversions) (decode : String → Result Fields) where
  -- `AuthService.verify_token`
  unfoldable pub verify_token : String → Result TokenClaims
  unfolding from_payload
  verify_token token = bind (decode token) (from_payload py)

module _ {S : Type 0} (py : Conversions) (decode : String → Result Fields)
    (sha256 : String → String) (repo : Option (TokensRepository S)) (cache : CacheClient S)
    (ttl : ℕ) where
  -- A repository that has no blacklist, or that otherwise raises an `AttributeError`, refuses nothing.
  abbrev pub no_blacklist : Exc → Exec S (Unit {0})
  no_blacklist (attribute_error m) = pure tt
  no_blacklist (value_error m) = raise (value_error m)
  no_blacklist (http code detail) = raise (http code detail)
  no_blacklist (failure m) = raise (failure m)

  abbrev pub refuse_blacklisted : String → Exec S (Unit {0})
  refuse_blacklisted token = elim repo [
    | none ↦ pure tt
    | some r ↦
        attempt
          (do
            b ← r.is_token_blacklisted token
            if b then raise (failure "token is blacklisted") else pure tt)
          no_blacklist
  ]

  abbrev pub session_lost : {A : Type 0} → Exc → Exec S A
  session_lost (http code detail) = raise (http code detail)
  session_lost (attribute_error m) = raise (http 401 "Session not found")
  session_lost (value_error m) = raise (http 401 "Session not found")
  session_lost (failure m) = raise (http 401 "Session not found")

  -- There is no session in the cache: it is made again, unless the token is on the blacklist.
  abbrev pub restore : String → TokenClaims → Exec S TokenClaims
  restore token claims = elim repo [
    | none ↦ raise (http 401 "Session not found")
    | some r ↦
        attempt
          (do
            b ← r.is_token_blacklisted token
            if b
                then raise (http 401 "Token has been revoked")
                else (do cache.set (session (sha256 token)) (text token) (some ttl); pure claims))
          session_lost
  ]

  abbrev pub cache_failed : {A : Type 0} → Exc → Exec S A
  cache_failed (http code detail) = raise (http code detail)
  cache_failed (attribute_error m) = raise (http 401 "Invalid token")
  cache_failed (value_error m) = raise (http 401 "Invalid token")
  cache_failed (failure m) = raise (http 401 "Invalid token")

  abbrev pub entry_checked : String → TokenClaims → Exec S TokenClaims
  entry_checked token claims = do
    entry ← cache.get (session (sha256 token))
    if truthy (or_nul entry) then pure claims else restore token claims

  abbrev pub in_session : String → TokenClaims → Exec S TokenClaims
  in_session token claims = attempt (entry_checked token claims) cache_failed

  abbrev pub authenticated : String → Exec S TokenClaims
  authenticated token = do
    claims ← lift (verify_token py decode token)
    refuse_blacklisted token
    in_session token claims

  -- The claims that the middleware resolved come first.
  unfoldable pub get_current_user : Option TokenClaims → String → Exec S TokenClaims
  unfolding verify_token
  get_current_user (some claims) token = pure claims
  get_current_user none token =
      attempt (authenticated token) (λ e. raise (http 401 "Invalid token"))
