-- ===== src/Routers/Auth/Answers.antt =====
-- When a refresh answers with an access token.
use clean_architecture_saas.Prelude.{
  ℕ, String, ◌≡◌, ◌≢◌, ◌↔◌, refl, inl, inr, true, false, Option, none, some, arith, Bool-cases,
}
use clean_architecture_saas.Python.Exec.{ok, is_ok, Result-cases}
use clean_architecture_saas.Python.Value.{Value, text}
use clean_architecture_saas.Cache.Keys.{session}
use clean_architecture_saas.Domain.User.{User}
use clean_architecture_saas.Access.RateLimit.{Caller, require_rate_limit}
use clean_architecture_saas.Auth.Issue.{
  create_refresh_access_token, open_session, create_access_token, claims_for,
}
use clean_architecture_saas.Tokens.Refresh.{RefreshToken}
use clean_architecture_saas.Routers.Auth.{Deps, refresh, refresh_with}

module _ {S : Type 0} (d : Deps S)
    (sets : (k : String) (v : Value) (ex : Option ℕ) (s : S) → (d.cache.set k v ex s).0 ≡ ok tt)
    (adds : (uid : ℕ) (h t : String) (ex : Option ℕ) (s : S)
      → (d.tokens.add_session_cache uid h t ex s).0 ≡ ok tt) where
  session_opens :
      (uid : ℕ) (t h : String) (s : S)
      → (open_session d.encode d.sha256 d.token_urlsafe d.now d.ttl d.tokens d.cache uid t h s).0
        ≡ ok tt
  session_opens uid t h s =
      let a = session (d.sha256 t) in
      let v = text t in
      let s' = (d.cache.set a v (some d.ttl) s).1 in
      let s'' = (d.cache.set (session h) v (some d.ttl) s').1 in
      ground (
        arith,
        sets a v (some d.ttl) s,
        sets (session h) v (some d.ttl) s',
        adds uid (d.sha256 t) t (some d.ttl) s'',
      )

  issues :
      (uid : ℕ) (h : String) (s : S)
      → is_ok
          (create_refresh_access_token d.encode d.sha256 d.token_urlsafe d.now d.ttl d.tokens
            d.cache
            (some d.users)
            uid
            h
            s).0
        ≡ true
  unfolding create_refresh_access_token
  issues uid h s =
      let t = (d.users.get_by_id uid s).1 in
      elim (Result-cases (d.users.get_by_id uid s).0) [
        | inl (none, e) ↦ ground (
          arith,
          session_opens uid (create_access_token d.encode d.now d.ttl (claims_for uid none) none) h
              t,
        )
        | inl (some u, e) ↦ ground (
          arith,
          session_opens uid
              (create_access_token d.encode d.now d.ttl (claims_for uid (some u.tenant_id)) none) h
              t,
        )
        | inr (x, e) ↦ ground (
          arith,
          session_opens uid (create_access_token d.encode d.now d.ttl (claims_for uid none) none) h
              t,
        )
      ]

  -- What a refresh asks of the row that is found, and of its user: an unrevoked row whose user, if
  -- it is stored, is not inactive.
  abbrev pub Admits : (ℕ → Option User) → Option RefreshToken → Type 0
  Admits stored none = ⊥
  Admits stored (some r) =
      (r.revoked ≡ false) × ((u : User) → stored r.user_id ≡ some u → u.is_active ≢ some false)

  module _ (stored : ℕ → Option User) (t : S)
      (reads : (n : ℕ) → d.users.get_by_id n t ≡ (ok (stored n), t)) where
    admitted :
        (r : RefreshToken) (o : Option User)
        → stored r.user_id ≡ o
        → r.revoked ≡ false
        → (is_ok (refresh_with d (some r) t).0 ≡ true)
          ↔ ((u : User) → o ≡ some u → u.is_active ≢ some false)
    admitted r none gone valid =
        (λ h u e. cc, λ h. ground (arith, reads r.user_id, issues r.user_id r.token_hash t))
    admitted r (some u) there valid = (
      λ h v e. ground (arith, reads r.user_id),
      λ h. ground (arith, reads r.user_id, h u refl, issues r.user_id r.token_hash t),
    )

    decided : (o : Option RefreshToken) → (is_ok (refresh_with d o t).0 ≡ true) ↔ Admits stored o
    decided none = (λ h. cc, λ h. absurd h)
    decided (some r) = elim (Bool-cases r.revoked) [
      | inl out ↦ (λ h. ground arith, λ (valid, h). ground arith)
      | inr valid ↦
          let (there, back) = admitted r (stored r.user_id) refl valid in
          (λ h. (valid, there h), λ (valid, h). back h)
    ]

    -- With a cache that stores, and a rate limit that lets the request pass: a refresh answers with
    -- an access token exactly if a row is found under the hash of the token, is not revoked, and
    -- its user is not stored any more or stored and not inactive; a column that is NULL counts as
    -- not inactive. When the row expires makes no difference.
    pub refresh_iff :
        (caller : Caller) (token : String) (s : S) (o : Option RefreshToken)
        → require_rate_limit d.cache caller s ≡ (ok tt, t)
        → d.tokens.find_by_token_hash (d.sha256 token) t ≡ (ok o, t)
        → (is_ok (refresh d caller token s).0 ≡ true) ↔ Admits stored o
    unfolding refresh
    refresh_iff caller token s o passed found =
        let same : (refresh d caller token s).0 ≡ (refresh_with d o t).0 =
          ground (arith, passed, found) in
        let (there, back) = decided o in
        (λ h. there (ground (arith, same)), λ h. ground (arith, same, back h))
