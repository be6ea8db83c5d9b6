-- ===== src/Tokens/Refresh.antt =====
-- infrastructure/repositories/tokens_repository.py, over its two tables and any cache client. The
-- handlers only log.
pub mod Laws
use clean_architecture_saas.Prelude.{
  ℕ, ◌+◌, ◌-◌, String, Bool, true, false, not, ◌&&◌, ◌||◌, Option, none, some, List, [], ◌∷◌, ◌++◌,
  any, keep, first, map, ◌==◌, nat_eq, ltb, if◌then◌else◌,
}
use clean_architecture_saas.Python.Exec.{Exec, pure, attempt, ◌>>=◌, ◌>>◌}
use clean_architecture_saas.Python.Value.{Value, text, texts, truthy}
use clean_architecture_saas.Db.Table.{Table}
use clean_architecture_saas.Cache.Client.{CacheClient}
use clean_architecture_saas.Cache.Keys.{session, user_sessions}
use clean_architecture_saas.Sessions.{Session, hashes, found_session}

-- A row of `RefreshTokenModel`; a `datetime` is a number of seconds.
pub record RefreshToken : Type 0 where
  pub user_id : ℕ
  pub token_hash : String
  pub revoked : Bool
  pub created_at : Option ℕ
  pub expires_at : Option ℕ

-- A row of `BlacklistedTokenModel`
pub record BlacklistedToken : Type 0 where
  pub user_id : Option ℕ
  pub token : String
  pub expires_at : Option ℕ

-- What the services ask of a repository of tokens.
pub record TokensRepository (S : Type 0) : Type 0 where
  pub create_refresh_token : ℕ → String → Exec S (Unit {0})
  pub list_refresh_tokens_by_user : ℕ → Exec S (List RefreshToken)
  pub revoke_refresh_token : String → Exec S (Unit {0})
  pub purge_refresh_tokens : Option ℕ → Exec S ℕ
  pub is_token_blacklisted : String → Exec S Bool
  pub blacklist_token : Option ℕ → String → Option ℕ → Exec S (Unit {0})
  pub add_session_cache : ℕ → String → String → Option ℕ → Exec S (Unit {0})
  pub list_sessions_by_user : ℕ → Exec S (List Session)
  pub revoke_session : String → Exec S (Unit {0})
  pub find_by_token_hash : String → Exec S (Option RefreshToken)

-- `t < now`, of a column that may be NULL
abbrev pub before : Option ℕ → ℕ → Bool
before none now = false
before (some t) now = ltb t now

-- The rows that `purge_refresh_tokens` deletes. A cutoff before the epoch is never reached.
unfoldable pub is_purged : ℕ → Option ℕ → RefreshToken → Bool
is_purged now keep_revoked r =
    before r.expires_at now
    || (r.revoked
        && elim keep_revoked [ none ↦ true | some seconds ↦ before r.created_at (now - seconds) ])

abbrev pub has_hash : String → RefreshToken → Bool
has_hash h r = r.token_hash == h

abbrev pub of_user : ℕ → RefreshToken → Bool
of_user uid r = nat_eq r.user_id uid

-- A row that is found is in force until its expiry, if it has one.
abbrev pub in_force : ℕ → Option BlacklistedToken → Bool
in_force now none = false
in_force now (some r) = not (before r.expires_at now)

abbrev pub expiry : ℕ → Option ℕ → Option ℕ
expiry now none = none
expiry now (some ttl) = some (now + ttl)

-- `[x for x in lst if x != h]`
abbrev without : String → List String → List String
without h lst = keep (λ x. not (x == h)) lst

module _ {S : Type 0} (table : Table S RefreshToken) (blacklist : Table S BlacklistedToken)
    (cache : CacheClient S) (now : ℕ) (ttl : Option ℕ) where
  open cache use {get, set}

  unfoldable pub create_refresh_token : ℕ → String → Exec S (Unit {0})
  create_refresh_token uid token_hash = do
    table.add (record {
      user_id = uid;
      token_hash = token_hash;
      revoked = false;
      created_at = some now;
      expires_at = expiry now ttl;
    })
    table.commit

  unfoldable pub list_refresh_tokens_by_user : ℕ → Exec S (List RefreshToken)
  list_refresh_tokens_by_user uid = table.select (of_user uid)

  unfoldable pub revoke_refresh_token : String → Exec S (Unit {0})
  revoke_refresh_token h = table.update (has_hash h) (λ r. record r { revoked = true })

  unfoldable pub purge_refresh_tokens : Option ℕ → Exec S ℕ
  unfolding is_purged
  purge_refresh_tokens keep_revoked = do
    count ← table.delete (is_purged now keep_revoked)
    table.commit
    pure count

  unfoldable pub is_token_blacklisted : String → Exec S Bool
  is_token_blacklisted token = do
    rows ← blacklist.select (λ r. r.token == token)
    pure (in_force now (first rows))

  unfoldable pub blacklist_token : Option ℕ → String → Option ℕ → Exec S (Unit {0})
  blacklist_token uid token expires_at = do
    blacklist.add (record { user_id = uid; token = token; expires_at = expires_at })
    blacklist.commit

  unfoldable pub add_session_cache : ℕ → String → String → Option ℕ → Exec S (Unit {0})
  unfolding hashes
  add_session_cache uid access_hash token ex =
      attempt
        (do
          set (session access_hash) (text token) ex
          found ← get (user_sessions uid)
          lst ← hashes found
          if any (λ h. h == access_hash) lst
              then pure tt
              else set (user_sessions uid) (texts (lst ++ access_hash ∷ []))
                  (elim ex [ none ↦ none | some seconds ↦ some (seconds + 3600) ]))
        (λ e. pure tt)

  -- The loop over the hashes, with the list that is left of them.
  unfoldable pub sweep : List String → List String → Exec S (List Session × List String)
  sweep [] lst = pure ([], lst)
  sweep (h ∷ hs) lst = do
    token ← get (session h)
    out ←
        sweep hs
          (elim token [ none ↦ without h lst | some v ↦ if truthy v then lst else without h lst ])
    pure (found_session h token out.0, out.1)

  unfoldable pub list_sessions_by_user : ℕ → Exec S (List Session)
  unfolding hashes sweep
  list_sessions_by_user uid =
      attempt
        (do
          found ← get (user_sessions uid)
          lst ← hashes found
          out ← sweep lst lst
          attempt (set (user_sessions uid) (texts out.1) none) (λ e. pure tt)
          pure out.0)
        (λ e. pure [])

  unfoldable pub revoke_session : String → Exec S (Unit {0})
  revoke_session session_id =
      attempt
        (do get (session session_id); attempt (cache.delete (session session_id)) (λ e. pure tt))
        (λ e. pure tt)

  unfoldable pub find_by_token_hash : String → Exec S (Option RefreshToken)
  find_by_token_hash h = do rows ← table.select (has_hash h); pure (first rows)

  abbrev pub sql_tokens : TokensRepository S
  sql_tokens = record {
    create_refresh_token = create_refresh_token;
    list_refresh_tokens_by_user = list_refresh_tokens_by_user;
    revoke_refresh_token = revoke_refresh_token;
    purge_refresh_tokens = purge_refresh_tokens;
    is_token_blacklisted = is_token_blacklisted;
    blacklist_token = blacklist_token;
    add_session_cache = add_session_cache;
    list_sessions_by_user = list_sessions_by_user;
    revoke_session = revoke_session;
    find_by_token_hash = find_by_token_hash;
  }
