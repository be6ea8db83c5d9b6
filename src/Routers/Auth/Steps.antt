-- ===== src/Routers/Auth/Steps.antt =====
-- What the handlers preserve, given that each call they make does.
use clean_architecture_saas.Prelude.{ℕ, String, ◌≡◌, Option, none, some}
use clean_architecture_saas.Python.Exec.{ok}
use clean_architecture_saas.Python.Preserves.{Preserves, after_if, after_handle, after_bind}
use clean_architecture_saas.Python.Value.{Value, Fields}
use clean_architecture_saas.Domain.Audit.{AuditAction, AuditResource, Origin, log_audit_event}
use clean_architecture_saas.Domain.Audit.Beside.{Logs, log_audit_event-Preserves}
use clean_architecture_saas.Domain.User.{User}
use clean_architecture_saas.Access.RateLimit.{Caller, require_rate_limit}
use clean_architecture_saas.Access.RateLimit.Beside.{require_rate_limit-Preserves}
use clean_architecture_saas.Auth.Issue.{
  create_login_tokens, create_refresh_access_token, open_session, login_as,
}
use clean_architecture_saas.Users.Service.{authenticate_global, verified, set_last_login}
use clean_architecture_saas.Tokens.Refresh.{RefreshToken}
use clean_architecture_saas.Routers.Auth.{
  Deps, TokenRequest, LogoutRequest, login, refresh, logout, delete_session_by_hash, refresh_with,
  refuse_inactive, revoke, log_in, issue, end_session,
}

-- Each call preserves `P`; a token is created only from a text that was drawn.
pub record Steps {S : Type 0} (d : Deps S) (P : S → Type 0) : Type 0 where
  pub by_id : (n : ℕ) → Preserves P (d.users.get_by_id n)
  pub by_email : (e : String) → Preserves P (d.users.get_by_email_global e)
  pub logs_in : (n t : ℕ) → Preserves P (d.users.update_last_login n t)
  pub verifies : (p h : String) → Preserves P (d.crypt.verify p h)
  pub draws : Preserves P d.token_urlsafe
  pub audits : Logs P d.audit
  pub gets : (k : String) → Preserves P (d.cache.get k)
  pub sets : (k : String) (v : Value) (ex : Option ℕ) → Preserves P (d.cache.set k v ex)
  pub incrs : (k : String) → Preserves P (d.cache.incr k)
  pub expires : (k : String) (n : ℕ) → Preserves P (d.cache.expire k n)
  pub deletes : (k : String) → Preserves P (d.cache.delete k)
  pub finds : (h : String) → Preserves P (d.tokens.find_by_token_hash h)
  pub creates :
      (uid : ℕ) (t : String) (s : S)
      → (d.token_urlsafe s).0 ≡ ok t
      → Preserves P (d.tokens.create_refresh_token uid (d.sha256 t))
  pub revokes : (h : String) → Preserves P (d.tokens.revoke_refresh_token h)
  pub blacklists :
      (uid : Option ℕ) (t : String) (ex : Option ℕ)
      → Preserves P (d.tokens.blacklist_token uid t ex)
  pub adds :
      (uid : ℕ) (h t : String) (ex : Option ℕ) → Preserves P (d.tokens.add_session_cache uid h t ex)

module _ {S : Type 0} (d : Deps S) (P : S → Type 0) (steps : Steps d P) where
  limit : (caller : Caller) → Preserves P (require_rate_limit d.cache caller)
  limit caller = require_rate_limit-Preserves P d.cache caller (steps.incrs _) (steps.expires _)

  session-Preserves :
      (uid : ℕ) (t h : String)
      → Preserves P
          (open_session d.encode d.sha256 d.token_urlsafe d.now d.ttl d.tokens d.cache uid t h)
  session-Preserves uid t h s p = search (after_bind P, steps.sets, steps.adds)

  issue_access :
      (uid : ℕ) (h : String)
      → Preserves P (
          create_refresh_access_token d.encode d.sha256 d.token_urlsafe d.now d.ttl d.tokens d.cache
            (some d.users)
            uid
            h)
  unfolding create_refresh_access_token
  issue_access uid h s p = search (after_handle P, after_bind P, steps.by_id, session-Preserves)

  refuse_inactive-Preserves : (o : Option User) → Preserves P (refuse_inactive d o)
  refuse_inactive-Preserves none s p = p
  refuse_inactive-Preserves (some u) s p = search (after_if P)

  refresh_with-Preserves : (o : Option RefreshToken) → Preserves P (refresh_with d o)
  refresh_with-Preserves none s p = p
  refresh_with-Preserves (some r) s p =
      search (after_bind P, after_if P, steps.by_id, issue_access, refuse_inactive-Preserves)

  pub refresh-Preserves : (caller : Caller) (token : String) → Preserves P (refresh d caller token)
  unfolding refresh
  refresh-Preserves caller token s p =
      search (after_bind P, limit, steps.finds, refresh_with-Preserves)

  pub revoke-Preserves : (token : String) (o : Option RefreshToken) → Preserves P (revoke d token o)
  revoke-Preserves token none s p = search (after_bind P, steps.deletes, steps.blacklists)
  revoke-Preserves token (some r) s p = search (after_bind P, steps.deletes, steps.revokes)

  pub logout-Preserves : (req : LogoutRequest) → Preserves P (logout d req)
  unfolding logout
  logout-Preserves req s p = search (after_bind P, after_if P, steps.finds, revoke-Preserves)

  end_session-Preserves : (h : String) (o : Option RefreshToken) → Preserves P (end_session d h o)
  end_session-Preserves h none s p = p
  end_session-Preserves h (some r) s p =
      search (after_bind P, after_handle P, steps.deletes, steps.revokes)

  pub delete_session_by_hash-Preserves : (h : String) → Preserves P (delete_session_by_hash d h)
  unfolding delete_session_by_hash
  delete_session_by_hash-Preserves h s p =
      search (after_bind P, after_handle P, steps.finds, end_session-Preserves)

  login_as-Preserves :
      (u : User) (o : Option ℕ)
      → Preserves P (login_as d.encode d.sha256 d.token_urlsafe d.now d.ttl d.tokens d.cache u o)
  login_as-Preserves u none s p = p
  login_as-Preserves u (some uid) s p =
      search (after_bind P, steps.draws, steps.creates, session-Preserves)

  issue-Preserves : (u : User) → Preserves P (issue d u)
  unfolding create_login_tokens
  issue-Preserves u s p = search (after_handle P, login_as-Preserves)

  audited :
      (u : User) (a : AuditAction) (b : AuditResource) (fs : Fields) (id : Option ℕ) (o : Origin)
      → Preserves P (log_audit_event d.audit u a b fs id o)
  audited u a b fs id o = log_audit_event-Preserves P u a b fs id o d.audit steps.audits

  verified-Preserves :
      (password : String) (o : Option User)
      → Preserves P (verified d.users d.crypt d.email_tokens d.token_urlsafe d.now password o)
  verified-Preserves password none s p = p
  verified-Preserves password (some u) s p = search (after_bind P, after_if P, steps.verifies)

  log_in-Preserves :
      (caller : Caller) (agent : Option String) (o : Option User)
      → Preserves P (log_in d caller agent o)
  unfolding set_last_login
  log_in-Preserves caller agent none s p = p
  log_in-Preserves caller agent (some u) s p =
      search (after_bind P, after_handle P, steps.logs_in, issue-Preserves, audited)

  authenticate-Preserves :
      (email password : String)
      → Preserves P
          (authenticate_global d.users d.crypt d.email_tokens d.token_urlsafe d.now email password)
  unfolding authenticate_global
  authenticate-Preserves email password s p =
      search (after_bind P, steps.by_email, verified-Preserves)

  pub login-Preserves :
      (caller : Caller) (agent : Option String) (req : TokenRequest)
      → Preserves P (login d caller agent req)
  unfolding login
  login-Preserves caller agent req s p =
      search (after_bind P, limit, authenticate-Preserves, log_in-Preserves)
