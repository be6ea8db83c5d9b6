-- ===== src/Sessions/Service/Complete.antt =====
-- Revoking all sessions of a user leaves no refresh token of that user in force.
use clean_architecture_saas.Prelude.{
  ℕ, String, ◌≡◌, refl, ap, Bool, true, false, not, ◌&&◌, Option, List, [], ◌∷◌, map, any, keep,
  length, arith, if◌then◌else◌, ◌==◌, eq_iff,
}
use clean_architecture_saas.Python.Exec.{ok}
use clean_architecture_saas.Db.Table.{Table, Documented}
use clean_architecture_saas.Cache.Client.{CacheClient}
use clean_architecture_saas.Tokens.Refresh.{
  RefreshToken, BlacklistedToken, has_hash, of_user, revoke_refresh_token,
  list_refresh_tokens_by_user, sql_tokens,
}
use clean_architecture_saas.Tokens.Refresh.Laws.{revoke_row, revoke_lem}
use clean_architecture_saas.Sessions.Service.{forget, revoke_tokens, revoke_all_user_sessions}

-- Whether the loop over `rs` revokes a row.
abbrev pub revoked_by : List RefreshToken → RefreshToken → Bool
revoked_by rs r = any (λ q. not (q.token_hash == "") && has_hash q.token_hash r) rs

abbrev pub mark : List RefreshToken → RefreshToken → RefreshToken
mark rs r = if revoked_by rs r then record r { revoked = true } else r

mark_none : (rows : List RefreshToken) → map (mark []) rows ≡ rows
mark_none [] = refl
mark_none (r ∷ rows) = ap (λ rs. r ∷ rs) (mark_none rows)

mark_more :
    (q : RefreshToken) (rs rows : List RefreshToken)
    → (q.token_hash == "") ≡ false
    → map (mark rs) (map (revoke_row q.token_hash) rows) ≡ map (mark (q ∷ rs)) rows
mark_more q rs [] h = refl
mark_more q rs (r ∷ rows) h = ground (arith, mark_more q rs rows h)

mark_same :
    (q : RefreshToken) (rs rows : List RefreshToken)
    → (q.token_hash == "") ≡ true
    → map (mark rs) rows ≡ map (mark (q ∷ rs)) rows
mark_same q rs [] h = refl
mark_same q rs (r ∷ rows) h = ground (arith, mark_same q rs rows h)

-- A token that the user can still use.
abbrev pub in_use : ℕ → RefreshToken → Bool
in_use uid r = of_user uid r && not (r.token_hash == "") && not r.revoked

none_in_use :
    (uid : ℕ) (rs rows : List RefreshToken)
    → ((p : RefreshToken → Bool) → any p (keep (of_user uid) rows) ≡ true → any p rs ≡ true)
    → any (in_use uid) (map (mark rs) rows) ≡ false
none_in_use uid rs [] h = refl
none_in_use uid rs (r ∷ rows) h = ground (
  arith,
  none_in_use uid rs rows (λ p e. h p (ground arith)),
  h (λ q. not (q.token_hash == "") && has_hash q.token_hash r),
  eq_iff r.token_hash r.token_hash,
)

module _ {S : Type 0} (table : Table S RefreshToken) (blacklist : Table S BlacklistedToken)
    (client : CacheClient S) (now : ℕ) (ttl : Option ℕ) (rows : S → List RefreshToken)
    (documented : Documented table rows) (cache : Option (CacheClient S))
    (apart : (h : String) (s : S)
      → rows (forget (sql_tokens table blacklist client now ttl) cache h s).1 ≡ rows s) where
  forget-ok :
      (h : String) (s : S)
      → (forget (sql_tokens table blacklist client now ttl) cache h s).0 ≡ ok tt
  forget-ok h s = ground arith

  revoke_tokens_lem :
      (rs : List RefreshToken) (s : S)
      → let out = revoke_tokens (sql_tokens table blacklist client now ttl) cache rs s in
        (out.0
          ≡ ok (record {
            revoked_count = length (keep (λ r. not (r.token_hash == "")) rs);
            failed_count = 0;
          }))
        × (rows out.1 ≡ map (mark rs) (rows s))
  unfolding revoke_tokens
  revoke_tokens_lem [] s = ground (arith, mark_none (rows s))
  revoke_tokens_lem (r ∷ rs) s =
      let s1 = (revoke_refresh_token table blacklist client now ttl r.token_hash s).1 in
      let s2 = (forget (sql_tokens table blacklist client now ttl) cache r.token_hash s1).1 in
      ground (
        arith,
        revoke_lem table blacklist client now ttl rows documented r.token_hash s,
        forget-ok r.token_hash s1,
        apart r.token_hash s1,
        revoke_tokens_lem rs s,
        revoke_tokens_lem rs s2,
        mark_more r rs (rows s),
        mark_same r rs (rows s),
      )

  -- Over the repository on a table with the documented behaviour, with a cache whose deletions leave
  -- that table alone: no call fails, the count is that of the user's tokens with a hash, and no
  -- token of the user with a hash is unrevoked afterwards.
  pub revoke_all_complete :
      (uid : ℕ) (s : S)
      → let out =
          revoke_all_user_sessions (sql_tokens table blacklist client now ttl) cache uid s in
        (out.0
          ≡ ok (record {
            revoked_count =
                length (keep (λ r. not (r.token_hash == "")) (keep (of_user uid) (rows s)));
            failed_count = 0;
          }))
        × (any (in_use uid) (rows out.1) ≡ false)
  unfolding revoke_all_user_sessions list_refresh_tokens_by_user
  revoke_all_complete uid s = ground (
    arith,
    documented.select_lem (of_user uid) s,
    revoke_tokens_lem (keep (of_user uid) (rows s)) s,
    none_in_use uid (keep (of_user uid) (rows s)) (rows s) (λ p e. e),
  )
