-- ===== src/Routers/Auth/Barred.antt =====
-- An access token that was logged out, over the tables of tokens.
use clean_architecture_saas.Prelude.{
  ℕ, ◌+◌, ◌≤◌, String, ◌≡◌, ◌≢◌, refl, sym, ◌∙◌, ap, subst, inl, inr, true, false, Option, none,
  some, List, [], ◌∷◌, ◌++◌, first, keep, arith, ◌==◌, eq_iff,
}
use clean_architecture_saas.Python.Exec.{Exec, Result, ok, Result-cases}
use clean_architecture_saas.Python.Preserves.{Preserves, after_bind}
use clean_architecture_saas.Python.Value.{Value, text, Fields}
use clean_architecture_saas.Cache.Documented.{Works}
use clean_architecture_saas.Cache.Keys.{session}
use clean_architecture_saas.Domain.Auth.{Conversions, TokenClaims}
use clean_architecture_saas.Db.Session.{
  Rollback, Settles, Pending, Aside, Throughout, Throughout-close,
}
use clean_architecture_saas.Db.Table.{Table, Documented, Inserts}
use clean_architecture_saas.Auth.CurrentUser.{get_current_user}
use clean_architecture_saas.Auth.CurrentUser.Checks.{current_user_sound}
use clean_architecture_saas.Tokens.Refresh.{
  RefreshToken, BlacklistedToken, has_hash, sql_tokens, create_refresh_token, revoke_refresh_token,
  find_by_token_hash, blacklist_token, is_token_blacklisted, expiry,
}
use clean_architecture_saas.Tokens.Refresh.Laws.{find_lem}
use clean_architecture_saas.Routers.Auth.Setting.{
  on_tables, Elsewhere, Command, perform_all, perform_all-Preserves, Steps-on_tables, kept,
}
use clean_architecture_saas.Routers.Auth.Steps.{Steps}
use clean_architecture_saas.Routers.Auth.{Deps, LogoutRequest, logout_token, logout, revoke}

-- The entry that is found for a token lasts until the moment `t`.
abbrev pub IsBarred : String → ℕ → List BlacklistedToken → Type 0
IsBarred token t rows =
    (r : BlacklistedToken) × (first (keep (λ x. x.token == token) rows) ≡ some r)
    × (r.expires_at ≡ some t)

first-append :
    (token : String) (rows : List BlacklistedToken) (x r : BlacklistedToken)
    → first (keep (λ y. y.token == token) rows) ≡ some r
    → first (keep (λ y. y.token == token) (rows ++ x ∷ [])) ≡ some r
first-append token [] x r e = cc
first-append token (y ∷ rows) x r e = ground (arith, first-append token rows x r)

first_new :
    (token : String) (rows : List BlacklistedToken) (x : BlacklistedToken)
    → first (keep (λ y. y.token == token) rows) ≡ none
    → (x.token == token) ≡ true
    → first (keep (λ y. y.token == token) (rows ++ x ∷ [])) ≡ some x
first_new token [] x e k = ground arith
first_new token (y ∷ rows) x e k = ground (arith, first_new token rows x)

append-IsBarred :
    (token : String) (t : ℕ) (rows : List BlacklistedToken) (x : BlacklistedToken)
    → IsBarred token t rows
    → IsBarred token t (rows ++ x ∷ [])
append-IsBarred token t rows x (r, e, k) = (r, first-append token rows x r e, k)

-- The database is beside the cache.
pub record Uncached {S R : Type 0} (t : Table S R) (close : S → S) (see : S → String → Option Value)
    : Type 0 where
  pub add_see : (r : R) (k : String) (s : S) → see (t.add r s).1 k ≡ see s k
  pub commit_see : (k : String) (s : S) → see (t.commit s).1 k ≡ see s k
  pub close_see : (k : String) (s : S) → see (close s) k ≡ see s k

module _ {S : Type 0} (d : Deps S) (table : Table S RefreshToken)
    (blacklist : Table S BlacklistedToken) (lifetime : Option ℕ) (rows : S → List RefreshToken)
    (barred durable : S → List BlacklistedToken) (refreshes : Documented table rows)
    (documented : Documented blacklist barred) (inserts : Inserts blacklist barred)
    (pending : Pending blacklist barred durable) (elsewhere : Elsewhere d barred durable)
    (aside : Aside table barred durable) (close : S → S) (rollback : Rollback barred durable close)
    (see : S → String → Option Value) (works : Works d.cache see)
    (uncached : Uncached blacklist close see) (token : String) where
  abbrev here : Deps S
  here = on_tables d table blacklist lifetime

  abbrev pub until : ℕ
  until = d.now + d.ttl

  -- The entry is there, and it is committed.
  abbrev pub Barred : S → Type 0
  Barred = Throughout barred durable (IsBarred token until)

  keeps : {A : Type 0} (m : Exec S A) → Settles barred durable m → Preserves Barred m
  keeps m k = kept elsewhere (IsBarred token until) table blacklist lifetime m k

  finds :
      (k : String) → Preserves Barred (find_by_token_hash table blacklist d.cache d.now lifetime k)
  finds k s p =
      subst Barred
        (ap (λ q. q.1) (sym (find_lem table blacklist d.cache d.now lifetime rows refreshes k s))) p

  creates :
      (uid : ℕ) (t : String) (s : S)
      → (d.token_urlsafe s).0 ≡ ok t
      → Preserves Barred
          (create_refresh_token table blacklist d.cache d.now lifetime uid (d.sha256 t))
  unfolding create_refresh_token
  creates uid t s drawn s' p =
      let r : RefreshToken = record {
        user_id = uid;
        token_hash = d.sha256 t;
        revoked = false;
        created_at = some d.now;
        expires_at = expiry d.now lifetime;
      } in
      after_bind Barred (table.add r s').0 (λ x. table.commit) (table.add r s').1
        (keeps (table.add r) (aside.adds r) s' p) (λ x e. keeps table.commit aside.commits _)

  revokes :
      (k : String)
      → Preserves Barred (revoke_refresh_token table blacklist d.cache d.now lifetime k)
  unfolding revoke_refresh_token
  revokes k s p = keeps (table.update (has_hash k) _) (aside.updates (has_hash k) _) s p

  add-Barred : (r : BlacklistedToken) → Preserves Barred (blacklist.add r)
  add-Barred r s (p, q) = (
    elim (inserts.add_lem r s) [
      | inl (e, x, same) ↦ subst (IsBarred token until) (sym same) p
      | inr (x, added) ↦
          subst (IsBarred token until) (sym added) (append-IsBarred token until (barred s) r p)
    ],
    subst (IsBarred token until) (sym (pending.add_durable r s)) q,
  )

  commit-Settles : Settles barred durable blacklist.commit
  commit-Settles s = (
    inserts.commit_rows s,
    elim (pending.commit_lem s) [ inl (e, x, same) ↦ inl same | inr new ↦ inr new ],
  )

  blacklists :
      (uid : Option ℕ) (t : String) (ex : Option ℕ)
      → Preserves Barred (blacklist_token table blacklist d.cache d.now lifetime uid t ex)
  unfolding blacklist_token
  blacklists uid t ex s p =
      let r : BlacklistedToken = record { user_id = uid; token = t; expires_at = ex } in
      after_bind Barred (blacklist.add r s).0 (λ x. blacklist.commit) (blacklist.add r s).1
        (add-Barred r s p) (λ x e. keeps blacklist.commit commit-Settles _)

  steps : Steps here Barred
  steps =
      Steps-on_tables elsewhere (IsBarred token until) table blacklist lifetime finds creates
        revokes blacklists

  revoke-Barred :
      (s : S) (reply : Fields)
      → first (keep (λ y. y.token == token) (barred s)) ≡ none
      → (revoke here token none s).0 ≡ ok reply
      → Barred (revoke here token none s).1
  unfolding blacklist_token
  revoke-Barred s reply new done =
      let r : BlacklistedToken = record {
        user_id = none;
        token = token;
        expires_at = some until;
      } in
      let k = session (d.sha256 token) in
      let t = (d.cache.delete k s).1 in
      let u = (blacklist.add r t).1 in
      elim (Result-cases (d.cache.delete k s).0) [
        | inr (e, x) ↦ absurd (ground arith)
        | inl (y, x) ↦ elim (inserts.add_lem r t) [
          | inl (e, z, same) ↦ absurd (ground arith)
          | inr (z, added) ↦ elim (pending.commit_lem u) [
            | inl (e, failed, same) ↦ absurd (ground arith)
            | inr committed ↦
                let there : IsBarred token until (barred u) = (
                  r,
                  ground (
                    arith,
                    (elsewhere.deletes k s).0,
                    eq_iff token token,
                    first_new token (barred s) r new,
                  ),
                  refl,
                ) in
                let end : (revoke here token none s).1 ≡ (blacklist.commit u).1 = ground arith in
                subst Barred (sym end) (
                  subst (IsBarred token until) (sym (inserts.commit_rows u)) there,
                  subst (IsBarred token until) (sym committed) there,
                )
          ]
        ]
      ]

  -- The session of the token is deleted from the cache.
  revoke-gone :
      (s : S) (reply : Fields)
      → (revoke here token none s).0 ≡ ok reply
      → see (revoke here token none s).1 (session (d.sha256 token)) ≡ none
  unfolding blacklist_token
  revoke-gone s reply done =
      let r : BlacklistedToken = record {
        user_id = none;
        token = token;
        expires_at = some until;
      } in
      let k = session (d.sha256 token) in
      let t = (d.cache.delete k s).1 in
      let u = (blacklist.add r t).1 in
      elim (Result-cases (blacklist.add r t).0) [
        | inr (e, x) ↦ absurd (ground (arith, works.delete_ok k s))
        | inl (y, x) ↦ elim (Result-cases (blacklist.commit u).0) [
          | inr (e, z) ↦ absurd (ground (arith, works.delete_ok k s))
          | inl (v, z) ↦ ground (
            arith,
            works.delete_ok k s,
            works.delete_see k k s,
            eq_iff k k,
            uncached.add_see r k t,
            uncached.commit_see k u,
          )
        ]
      ]

  logs_out :
      (req : LogoutRequest) (s : S) (reply : Fields)
      → logout_token req ≡ text token
      → (token == "") ≡ false
      → first (keep (has_hash (d.sha256 token)) (rows s)) ≡ none
      → first (keep (λ y. y.token == token) (barred s)) ≡ none
      → (logout here req s).0 ≡ ok reply
      → Barred (logout here req s).1 × (see (logout here req s).1 (session (d.sha256 token)) ≡ none)
  unfolding logout
  logs_out req s reply t n unknown new done =
      let same : logout here req s ≡ revoke here token none s = ground (
        arith,
        t,
        find_lem table blacklist d.cache d.now lifetime rows refreshes (d.sha256 token) s,
      ) in
      let answered : (revoke here token none s).0 ≡ ok reply = ground (arith, done, same) in
      subst (λ q. Barred q.1 × (see q.1 (session (d.sha256 token)) ≡ none)) (sym same)
        (revoke-Barred s reply new answered, revoke-gone s reply answered)

  found-Barred :
      (now : ℕ) (s : S)
      → now ≤ until
      → Barred s
      → (is_token_blacklisted table blacklist d.cache now lifetime token s).0 ≡ ok true
  unfolding is_token_blacklisted
  found-Barred now s soon ((r, there, lasts), committed) =
      ground (arith, documented.select_lem (λ y. y.token == token) s)

  closes : (s : S) → Barred s → Barred (close s)
  closes = Throughout-close barred durable (IsBarred token until) close rollback

  stays_out :
      (py : Conversions) (decode : String → Result Fields) (now : ℕ) (s : S) (claims : TokenClaims)
      → now ≤ until
      → Barred s
      → (get_current_user py decode d.sha256
          (some (sql_tokens table blacklist d.cache now lifetime))
          d.cache
          d.ttl
          none
          token
          s).0
        ≢ ok claims
  stays_out py decode now s claims soon p passed =
      let sound =
        current_user_sound py decode d.sha256 (sql_tokens table blacklist d.cache now lifetime)
          d.cache d.ttl token claims s passed in
      let found = found-Barred now s soon p in
      elim sound.1 [
        | inl clear ↦ absurd (ground (arith, found, clear))
        | inr (m, unclear) ↦ absurd (ground (arith, found, unclear))
      ]

  -- Over documented tables, with a session of the database for each request that drops at its end
  -- what is not committed, and a cache that works: once a logout with an access token has answered,
  -- no session is cached for the token, which is what the middleware goes by; and after any later
  -- sequence of logins, refreshes, logouts and deletions of sessions, `get_current_user` does not
  -- accept the token where no middleware resolved it, as long as a token issued at the logout would
  -- last. It must be no stored refresh token, and not have been on the blacklist before.
  pub logged_out :
      (cs : List Command) (py : Conversions) (decode : String → Result Fields) (now : ℕ)
      (req : LogoutRequest) (s : S) (reply : Fields)
      → logout_token req ≡ text token
      → (token == "") ≡ false
      → first (keep (has_hash (d.sha256 token)) (rows s)) ≡ none
      → first (keep (λ y. y.token == token) (barred s)) ≡ none
      → (logout here req s).0 ≡ ok reply
      → now ≤ d.now + d.ttl
      → (see (close (logout here req s).1) (session (d.sha256 token)) ≡ none)
        × ((claims : TokenClaims)
            → (get_current_user py decode d.sha256
                (some (sql_tokens table blacklist d.cache now lifetime))
                d.cache
                d.ttl
                none
                token
                (perform_all here close cs (close (logout here req s).1))).0
              ≢ ok claims)
  logged_out cs py decode now req s reply t n unknown new done soon =
      let out = logs_out req s reply t n unknown new done in
      (
        uncached.close_see (session (d.sha256 token)) (logout here req s).1 ∙ out.1,
        λ claims passed.
            stays_out py decode now (perform_all here close cs (close (logout here req s).1)) claims
              soon (perform_all-Preserves Barred here steps close closes cs _ (closes _ out.0))
              passed,
      )
