-- ===== src/Auth/Issue.antt =====
-- services/auth_service.py: the issuing of tokens. `jwt.encode` under the service's secret, SHA-256
-- and the random tokens are parameters; the logging is left out.
pub mod RoundTrip
use clean_architecture_saas.Prelude.{ℕ, ◌+◌, String, Option, none, some}
use clean_architecture_saas.Python.Exec.{failure, Exec, pure, raise, attempt, ◌>>=◌, ◌>>◌}
use clean_architecture_saas.Python.Int.{ℤ, pos}
use clean_architecture_saas.Python.Text.{show}
use clean_architecture_saas.Python.Value.{num, text, Fields, end, set_field, default_field}
use clean_architecture_saas.Domain.Auth.{TokenClaims, to_payload}
use clean_architecture_saas.Domain.User.{User}
use clean_architecture_saas.Cache.Client.{CacheClient}
use clean_architecture_saas.Cache.Keys.{session}
use clean_architecture_saas.Tokens.Refresh.{TokensRepository}
use clean_architecture_saas.Users.Repository.{UserRepository}

pub record AuthTokens : Type 0 where
  pub access_token : String
  pub refresh_token : Option String
  pub expires_in : Option ℕ

-- When a token expires: by the argument, by its claims, or after the service's lifetime.
abbrev pub expire : ℕ → ℕ → Option ℕ → Option ℕ → ℕ
expire now ttl (some delta) at = now + delta
expire now ttl none (some t) = t
expire now ttl none none = now + ttl

abbrev pub issued : ℕ → Option ℕ → ℕ
issued now none = now
issued now (some t) = t

-- The payload that is signed; a moment stands in it as its number of seconds.
unfoldable pub signed_payload : ℕ → ℕ → TokenClaims → Option ℕ → Fields
unfolding to_payload set_field default_field
signed_payload now ttl c delta =
    default_field (set_field (to_payload c) "exp" (num (pos (expire now ttl delta c.expires_at))))
      "iat" (num (pos (issued now c.issued_at)))

abbrev pub claims_for : ℕ → Option ℕ → TokenClaims
claims_for uid tid = record {
  subject = show uid;
  tenant_id = elim tid [ none ↦ none | some t ↦ some (pos t) ];
  issued_at = none;
  expires_at = none;
  extra = end;
}

module _ (encode : Fields → String) (now ttl : ℕ) where
  unfoldable pub create_access_token : TokenClaims → Option ℕ → String
  unfolding signed_payload
  create_access_token c delta = encode (signed_payload now ttl c delta)

module _ {S : Type 0} (encode : Fields → String) (sha256 : String → String)
    (token_urlsafe : Exec S String) (now ttl : ℕ) (tokens : TokensRepository S)
    (cache : CacheClient S) where
  -- The two entries of the cache and the one of the user's list.
  abbrev pub open_session : ℕ → String → String → Exec S (Unit {0})
  open_session uid access_token other_hash = do
    cache.set (session (sha256 access_token)) (text access_token) (some ttl)
    cache.set (session other_hash) (text access_token) (some ttl)
    tokens.add_session_cache uid (sha256 access_token) access_token (some ttl)

  abbrev pub login_as : User → Option ℕ → Exec S AuthTokens
  login_as u none = raise (failure "refused by the database")
  login_as u (some uid) = do
    refresh_token ← token_urlsafe
    tokens.create_refresh_token uid (sha256 refresh_token)
    open_session uid (create_access_token encode now ttl (claims_for uid (some u.tenant_id)) none)
        (sha256 refresh_token)
    pure (record {
      access_token = create_access_token encode now ttl (claims_for uid (some u.tenant_id)) none;
      refresh_token = some refresh_token;
      expires_in = some ttl;
    })

  -- A refresh token for no user is refused.
  unfoldable pub create_login_tokens : User → Exec S AuthTokens
  unfolding create_access_token
  create_login_tokens u = login_as u u.id

  abbrev pub tenant_of : Option User → Option ℕ
  tenant_of none = none
  tenant_of (some u) = some u.tenant_id

  -- The tenant of the user, if there is a repository and it can read one.
  abbrev pub read_tenant : Option (UserRepository S) → ℕ → Exec S (Option ℕ)
  read_tenant none uid = pure none
  read_tenant (some repo) uid =
      attempt (do u ← repo.get_by_id uid; pure (tenant_of u)) (λ e. pure none)

  unfoldable pub create_refresh_access_token :
      Option (UserRepository S) → ℕ → String → Exec S AuthTokens
  unfolding create_access_token
  create_refresh_access_token users uid refresh_token_hash = do
    tid ← read_tenant users uid
    open_session uid (create_access_token encode now ttl (claims_for uid tid) none)
        refresh_token_hash
    pure (record {
      access_token = create_access_token encode now ttl (claims_for uid tid) none;
      refresh_token = none;
      expires_in = some ttl;
    })
