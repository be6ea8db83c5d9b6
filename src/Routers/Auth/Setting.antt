-- ===== src/Routers/Auth/Setting.antt =====
-- The handlers over the tables of tokens, and what the other calls leave alone.
use clean_architecture_saas.Prelude.{ℕ, String, ◌≡◌, Option, some, none, List, [], ◌∷◌}
use clean_architecture_saas.Python.Preserves.{Preserves, after_if, after_handle, after_bind}
use clean_architecture_saas.Python.Exec.{Exec, ok}
use clean_architecture_saas.Python.Value.{Value, texts}
use clean_architecture_saas.Cache.Client.{CacheClient}
use clean_architecture_saas.Sessions.{hashes}
use clean_architecture_saas.Domain.Audit.{AuditRepository, AuditEvent, Subject}
use clean_architecture_saas.Access.RateLimit.{Caller}
use clean_architecture_saas.Db.Session.{Settles, Throughout, Preserves-of_Settles}
use clean_architecture_saas.Db.Table.{Table}
use clean_architecture_saas.Tokens.Refresh.{
  RefreshToken, BlacklistedToken, sql_tokens, add_session_cache, find_by_token_hash,
  create_refresh_token, revoke_refresh_token, blacklist_token,
}
use clean_architecture_saas.Routers.Auth.Steps.{
  Steps, login-Preserves, refresh-Preserves, logout-Preserves, delete_session_by_hash-Preserves,
}
use clean_architecture_saas.Routers.Auth.{
  Deps, TokenRequest, LogoutRequest, login, refresh, logout, delete_session_by_hash,
}

-- The handlers on the stored tokens.
abbrev pub on_tables :
    {S : Type 0} → Deps S → Table S RefreshToken → Table S BlacklistedToken → Option ℕ → Deps S
on_tables d table blacklist lifetime = record d {
  tokens = sql_tokens table blacklist d.cache d.now lifetime;
}

-- Everything else that the handlers call writes nothing to the table that is
-- looked at, though it may commit the session.
pub record Elsewhere {S V : Type 0} (d : Deps S) (view durable : S → V) : Type 0 where
  pub reads_id : (n : ℕ) → Settles view durable (d.users.get_by_id n)
  pub reads_email : (e : String) → Settles view durable (d.users.get_by_email_global e)
  pub logs_in : (n t : ℕ) → Settles view durable (d.users.update_last_login n t)
  pub verifies : (p h : String) → Settles view durable (d.crypt.verify p h)
  pub draws : Settles view durable d.token_urlsafe
  pub audits :
      (r : AuditRepository S) (w : Subject) (v : Value) (e : AuditEvent)
      → d.audit ≡ some r
      → Settles view durable (r.log_event w v e)
  pub gets : (k : String) → Settles view durable (d.cache.get k)
  pub sets : (k : String) (v : Value) (ex : Option ℕ) → Settles view durable (d.cache.set k v ex)
  pub incrs : (k : String) → Settles view durable (d.cache.incr k)
  pub expires : (k : String) (n : ℕ) → Settles view durable (d.cache.expire k n)
  pub deletes : (k : String) → Settles view durable (d.cache.delete k)

module _ {S : Type 0} (P : S → Type 0) (cache : CacheClient S) (table : Table S RefreshToken)
    (blacklist : Table S BlacklistedToken) (now : ℕ) (lifetime : Option ℕ)
    (gets : (k : String) → Preserves P (cache.get k))
    (sets : (k : String) (v : Value) (ex : Option ℕ) → Preserves P (cache.set k v ex)) where
  hashes-Preserves : (o : Option Value) → Preserves P (hashes o)
  unfolding hashes
  hashes-Preserves none s p = p
  hashes-Preserves (some (texts hs)) s p = p
  hashes-Preserves (some v) s p = search (after_if P)

  pub add_session_cache-Preserves :
      (uid : ℕ) (k t : String) (ex : Option ℕ)
      → Preserves P (add_session_cache table blacklist cache now lifetime uid k t ex)
  unfolding add_session_cache
  add_session_cache-Preserves uid k t ex s p =
      search (after_handle P, after_bind P, after_if P, gets, sets, hashes-Preserves) depth 9

-- With what is elsewhere, only the four statements on the tables are left to look at.
module _ {S V : Type 0} {d : Deps S} {view durable : S → V} (elsewhere : Elsewhere d view durable)
    (Q : V → Type 0) (table : Table S RefreshToken) (blacklist : Table S BlacklistedToken)
    (lifetime : Option ℕ) where
  abbrev pub Holds : S → Type 0
  Holds = Throughout view durable Q

  pub kept : {A : Type 0} (m : Exec S A) → Settles view durable m → Preserves Holds m
  kept m k = Preserves-of_Settles view durable Q m k

  pub Steps-on_tables :
      ((h : String) → Preserves Holds (find_by_token_hash table blacklist d.cache d.now lifetime h))
      → ((uid : ℕ) (t : String) (s : S)
          → (d.token_urlsafe s).0 ≡ ok t
          → Preserves Holds
              (create_refresh_token table blacklist d.cache d.now lifetime uid (d.sha256 t)))
      → ((h : String)
          → Preserves Holds (revoke_refresh_token table blacklist d.cache d.now lifetime h))
      → ((uid : Option ℕ) (t : String) (ex : Option ℕ)
          → Preserves Holds (blacklist_token table blacklist d.cache d.now lifetime uid t ex))
      → Steps (on_tables d table blacklist lifetime) Holds
  Steps-on_tables finds creates revokes blacklists = record {
    by_id = λ n. kept (d.users.get_by_id n) (elsewhere.reads_id n);
    by_email = λ e. kept (d.users.get_by_email_global e) (elsewhere.reads_email e);
    logs_in = λ n t. kept (d.users.update_last_login n t) (elsewhere.logs_in n t);
    verifies = λ p k. kept (d.crypt.verify p k) (elsewhere.verifies p k);
    draws = kept d.token_urlsafe elsewhere.draws;
    audits = λ r w v e x. kept (r.log_event w v e) (elsewhere.audits r w v e x);
    gets = λ k. kept (d.cache.get k) (elsewhere.gets k);
    sets = λ k v ex. kept (d.cache.set k v ex) (elsewhere.sets k v ex);
    incrs = λ k. kept (d.cache.incr k) (elsewhere.incrs k);
    expires = λ k n. kept (d.cache.expire k n) (elsewhere.expires k n);
    deletes = λ k. kept (d.cache.delete k) (elsewhere.deletes k);
    finds = finds;
    creates = creates;
    revokes = revokes;
    blacklists = blacklists;
    adds =
        add_session_cache-Preserves Holds d.cache table blacklist d.now lifetime
          (λ k. kept (d.cache.get k) (elsewhere.gets k))
          (λ k v ex. kept (d.cache.set k v ex) (elsewhere.sets k v ex));
  }

-- The requests about tokens.
pub data Command : Type 0 where
  sign_in : Caller → Option String → TokenRequest → Command
  renew : Caller → String → Command
  sign_out : LogoutRequest → Command
  end_one : String → Command

-- Each request ends with the end of its session.
module _ {S : Type 0} (d : Deps S) (close : S → S) where
  abbrev pub perform : Command → S → S
  perform (sign_in caller agent req) s = close (login d caller agent req s).1
  perform (renew caller token) s = close (refresh d caller token s).1
  perform (sign_out req) s = close (logout d req s).1
  perform (end_one k) s = close (delete_session_by_hash d k s).1

  abbrev pub perform_all : List Command → S → S
  perform_all [] s = s
  perform_all (c ∷ cs) s = perform_all cs (perform c s)

module _ {S : Type 0} (P : S → Type 0) (d : Deps S) (steps : Steps d P) (close : S → S)
    (closes : (s : S) → P s → P (close s)) where
  perform-Preserves : (c : Command) (s : S) → P s → P (perform d close c s)
  perform-Preserves (sign_in caller agent req) s p =
      closes _ (login-Preserves d P steps caller agent req s p)
  perform-Preserves (renew caller token) s p =
      closes _ (refresh-Preserves d P steps caller token s p)
  perform-Preserves (sign_out req) s p = closes _ (logout-Preserves d P steps req s p)
  perform-Preserves (end_one k) s p = closes _ (delete_session_by_hash-Preserves d P steps k s p)

  pub perform_all-Preserves : (cs : List Command) (s : S) → P s → P (perform_all d close cs s)
  perform_all-Preserves [] s p = p
  perform_all-Preserves (c ∷ cs) s p =
      perform_all-Preserves cs (perform d close c s) (perform-Preserves c s p)
