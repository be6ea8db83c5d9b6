-- ===== src/Tokens/Refresh/Laws.antt =====
-- What revoking and purging do to the stored refresh tokens.
use clean_architecture_saas.Prelude.{
  ℕ, String, ◌≡◌, Bool, true, false, not, Option, some, List, [], ◌∷◌, map, keep, first, arith,
  if◌then◌else◌,
}
use clean_architecture_saas.Python.Exec.{ok}
use clean_architecture_saas.Db.Table.{Table, Documented}
use clean_architecture_saas.Cache.Client.{CacheClient}
use clean_architecture_saas.Tokens.Refresh.{
  RefreshToken, BlacklistedToken, has_hash, is_purged, before, revoke_refresh_token,
  purge_refresh_tokens, find_by_token_hash,
}

abbrev pub revoke_row : String → RefreshToken → RefreshToken
revoke_row h r = if has_hash h r then record r { revoked = true } else r

first_kept :
    (p q : RefreshToken → Bool) (rows : List RefreshToken) (r : RefreshToken)
    → first (keep p rows) ≡ some r
    → q r ≡ true
    → first (keep p (keep q rows)) ≡ some r
first_kept p q [] r h k = cc
first_kept p q (x ∷ rows) r h k = ground (arith, first_kept p q rows r)

first_revoked :
    (h : String) (rows : List RefreshToken) (r : RefreshToken)
    → first (keep (has_hash h) (map (revoke_row h) rows)) ≡ some r
    → r.revoked ≡ true
first_revoked h [] r e = cc
first_revoked h (x ∷ rows) r e = ground (arith, first_revoked h rows r)

module _ {S : Type 0} (table : Table S RefreshToken) (blacklist : Table S BlacklistedToken)
    (cache : CacheClient S) (now : ℕ) (ttl : Option ℕ) (rows : S → List RefreshToken)
    (documented : Documented table rows) where
  pub find_lem :
      (h : String) (s : S)
      → find_by_token_hash table blacklist cache now ttl h s
        ≡ (ok (first (keep (has_hash h) (rows s))), s)
  unfolding find_by_token_hash
  find_lem h s = ground (arith, documented.select_lem (has_hash h) s)

  pub revoke_lem :
      (h : String) (s : S)
      → let out = revoke_refresh_token table blacklist cache now ttl h s in
        (out.0 ≡ ok tt) × (rows out.1 ≡ map (revoke_row h) (rows s))
  unfolding revoke_refresh_token
  revoke_lem h s = (
    documented.update_ok (has_hash h) (λ r. record r { revoked = true }) s,
    documented.update_rows (has_hash h) (λ r. record r { revoked = true }) s,
  )

  -- Over a table with the documented behaviour: after a token is revoked, whatever is found under its hash is a revoked token.
  find-revoke :
      (h : String) (s : S) (r : RefreshToken)
      → (find_by_token_hash table blacklist cache now ttl h
          (revoke_refresh_token table blacklist cache now ttl h s).1).0
        ≡ ok (some r)
      → r.revoked ≡ true
  find-revoke h s r e = first_revoked h (rows s) r (
      ground (
        arith,
        find_lem h (revoke_refresh_token table blacklist cache now ttl h s).1,
        revoke_lem h s,
      ))

  valid_kept :
      (keep_revoked : Option ℕ) (r : RefreshToken)
      → r.revoked ≡ false
      → before r.expires_at now ≡ false
      → is_purged now keep_revoked r ≡ false
  unfolding is_purged
  valid_kept keep_revoked r h k = ground arith

  -- Over a table with the documented behaviour whose commit writes nothing, a purge takes no valid
  -- token away: one that is found, is not revoked and has not expired is found afterwards as it was.
  pub find-purge :
      (h : String) (keep_revoked : Option ℕ) (s : S) (r : RefreshToken)
      → ((t : S) → rows (table.commit t).1 ≡ rows t)
      → (find_by_token_hash table blacklist cache now ttl h s).0 ≡ ok (some r)
      → r.revoked ≡ false
      → before r.expires_at now ≡ false
      → (find_by_token_hash table blacklist cache now ttl h
          (purge_refresh_tokens table blacklist cache now ttl keep_revoked s).1).0
        ≡ ok (some r)
  unfolding purge_refresh_tokens
  find-purge h keep_revoked s r commits e a b = ground (
    arith,
    documented.delete_ok (is_purged now keep_revoked) s,
    documented.delete_rows (is_purged now keep_revoked) s,
    commits (table.delete (is_purged now keep_revoked) s).1,
    find_lem h s,
    find_lem h (table.commit (table.delete (is_purged now keep_revoked) s).1).1,
    valid_kept keep_revoked r a b,
    first_kept (has_hash h) (λ x. not (is_purged now keep_revoked x)) (rows s) r,
  )
