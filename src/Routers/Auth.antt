-- ===== src/Routers/Auth.antt =====
-- routers/auth.py: login, refresh, logout and the deletion of a session. What a handler depends on is
-- one record; the dependency on the rate limit runs first. Metrics and logging are left out.
pub mod Answers
pub mod Barred
pub mod Setting
pub mod Steps
pub mod Undone
use Prim.Native.String
use clean_architecture_saas.Prelude.{
  ℕ, ◌+◌, String, Bool, true, false, not, ◌||◌, Option, none, some, if◌then◌else◌,
}
use clean_architecture_saas.Python.Exec.{
  failure, http, Result, ok, raised, Exec, pure, raise, lift, attempt, ◌>>=◌, ◌>>◌,
}
use clean_architecture_saas.Python.Value.{
  Value, nul, flag, text, dict, truthy, Fields, end, field, get_field, or_nul,
}
use clean_architecture_saas.Domain.Audit.{
  AuditAction, AuditResource, AuditRepository, Origin, log_audit_event,
}
use clean_architecture_saas.Domain.User.{User}
use clean_architecture_saas.Cache.Client.{CacheClient}
use clean_architecture_saas.Cache.Keys.{session}
use clean_architecture_saas.Access.RateLimit.{Caller, require_rate_limit}
use clean_architecture_saas.Auth.Issue.{
  AuthTokens, create_login_tokens, create_refresh_access_token,
}
use clean_architecture_saas.Tokens.Refresh.{RefreshToken, TokensRepository}
use clean_architecture_saas.Users.Repository.{UserRepository}
use clean_architecture_saas.Users.Service.{
  CryptContext, EmailTokenRepository, EmailSender, authenticate_global, set_last_login, or_zero,
}

-- What the handlers are given: the repositories, the cache and the service's parameters.
pub record Deps (S : Type 0) : Type 0 where
  pub users : UserRepository S
  pub tokens : TokensRepository S
  pub cache : CacheClient S
  pub audit : Option (AuditRepository S)
  pub email_tokens : Option (EmailTokenRepository S)
  pub sender : Option (EmailSender S)
  pub crypt : CryptContext S
  pub token_urlsafe : Exec S String
  pub encode : Fields → String
  pub sha256 : String → String
  pub ttl : ℕ
  pub now : ℕ

pub record TokenRequest : Type 0 where
  pub email : String
  pub password : String

pub record TokenResponse : Type 0 where
  pub access_token : String
  pub token_type : String
  pub refresh_token : Option String

-- Where a token may stand in a request to log out: the query, a JSON body or a form, either of
-- which may not be readable.
pub record LogoutRequest : Type 0 where
  pub session_id : Option String
  pub body : Result Value
  pub form : Result Fields

abbrev pub origin : Caller → Option String → Origin
origin caller agent = record { ip = caller.ip; agent = agent }

-- `v or w`
abbrev pub or_else : Value → Value → Value
or_else v w = if truthy v then v else w

abbrev pub named : Fields → Value
named fs = or_else (or_nul (get_field fs "refresh_token")) (or_nul (get_field fs "session_id"))

abbrev pub in_query : Option String → Value
in_query none = nul
in_query (some t) = text t

abbrev pub in_body : Result Value → Value
in_body (raised e) = nul
in_body (ok v) = elim v [ dict fs ↦ named fs | _ ↦ nul ]

-- An uploaded file is no text.
abbrev pub in_form : Result Fields → Value
in_form (raised e) = nul
in_form (ok fs) = elim (named fs) [ text t ↦ text t | _ ↦ nul ]

-- The query comes first, then the body, then the form.
unfoldable pub logout_token : LogoutRequest → Value
unfolding get_field
logout_token r = or_else (or_else (in_query r.session_id) (in_body r.body)) (in_form r.form)

-- `token.encode("utf-8")`
abbrev pub encoded : Value → Result String
encoded v = elim v [ text t ↦ ok t | _ ↦ raised (failure "no attribute encode") ]

abbrev pub revoked_reply : Bool → Fields
revoked_reply b = field "revoked" (flag b) end

module _ {S : Type 0} (d : Deps S) where
  abbrev pub issue : User → Exec S AuthTokens
  issue u =
      attempt (create_login_tokens d.encode d.sha256 d.token_urlsafe d.now d.ttl d.tokens d.cache u)
        (λ e. raise (http 500 "failed to create session"))

  abbrev pub log_in : Caller → Option String → Option User → Exec S TokenResponse
  log_in caller agent none = raise (http 401 "Invalid credentials")
  log_in caller agent (some u) = do
    attempt (set_last_login d.users d.crypt d.email_tokens d.token_urlsafe d.now (or_zero u.id))
        (λ e. pure tt)
    issued ← issue u
    log_audit_event d.audit u AuditAction.login AuditResource.auth
        (field "message" (text (String.◌++◌ "user " (String.◌++◌ u.email " logged in"))) end) none
        (origin caller agent)
    pure (record {
      access_token = issued.access_token;
      token_type = "bearer";
      refresh_token = issued.refresh_token;
    })

  unfoldable pub login : Caller → Option String → TokenRequest → Exec S TokenResponse
  unfolding require_rate_limit authenticate_global set_last_login create_login_tokens
      log_audit_event
  login caller agent req = do
    require_rate_limit d.cache caller
    u ←
        authenticate_global d.users d.crypt d.email_tokens d.token_urlsafe d.now req.email
          req.password
    log_in caller agent u

  -- `is False`
  abbrev pub is_false : Option Bool → Bool
  is_false none = false
  is_false (some b) = not b

  -- A user that is not stored any more is let through, and one whose column is NULL.
  abbrev pub refuse_inactive : Option User → Exec S (Unit {0})
  refuse_inactive none = pure tt
  refuse_inactive (some u) =
      if is_false u.is_active then raise (http 401 "User inactive") else pure tt

  abbrev pub refresh_with : Option RefreshToken → Exec S TokenResponse
  refresh_with none = raise (http 401 "Invalid refresh token")
  refresh_with (some r) = if r.revoked then raise (http 401 "Invalid refresh token") else (do
    u ← d.users.get_by_id r.user_id
    refuse_inactive u
    issued ←
        create_refresh_access_token d.encode d.sha256 d.token_urlsafe d.now d.ttl d.tokens d.cache
          (some d.users) r.user_id r.token_hash
    pure (record {
      access_token = issued.access_token;
      token_type = "bearer";
      refresh_token = none;
    }))

  unfoldable pub refresh : Caller → String → Exec S TokenResponse
  unfolding require_rate_limit create_refresh_access_token
  refresh caller refresh_token = do
    require_rate_limit d.cache caller
    found ← d.tokens.find_by_token_hash (d.sha256 refresh_token)
    refresh_with found

  -- A token that is no stored refresh token counts as an access token, and is put on the blacklist
  -- for as long as a new one would last.
  abbrev pub revoke : String → Option RefreshToken → Exec S Fields
  revoke token (some r) = do
    d.tokens.revoke_refresh_token (d.sha256 token)
    d.cache.delete (session (d.sha256 token))
    pure (revoked_reply true)
  revoke token none = do
    d.cache.delete (session (d.sha256 token))
    d.tokens.blacklist_token none token (some (d.now + d.ttl))
    pure (revoked_reply true)

  abbrev pub log_out : String → Exec S Fields
  log_out token = do found ← d.tokens.find_by_token_hash (d.sha256 token); revoke token found

  unfoldable pub logout : LogoutRequest → Exec S Fields
  unfolding logout_token
  logout req =
      if truthy (logout_token req)
      then (do token ← lift (encoded (logout_token req)); log_out token)
      else pure (
          field "revoked" (flag false)
            (field "detail" (text "refresh token or session_id required") end))

  abbrev pub end_session : String → Option RefreshToken → Exec S Fields
  end_session token_hash none = pure (revoked_reply false)
  end_session token_hash (some r) = do
    attempt (d.tokens.revoke_refresh_token token_hash) (λ e. pure tt)
    attempt (d.cache.delete (session token_hash)) (λ e. pure tt)
    pure (revoked_reply true)

  unfoldable pub delete_session_by_hash : String → Exec S Fields
  delete_session_by_hash token_hash = do
    found ← attempt (d.tokens.find_by_token_hash token_hash) (λ e. pure none)
    end_session token_hash found
