-- ===== src/Sessions/Service.antt =====
-- services/session_service.py, over any repository of tokens.
pub mod Complete
use clean_architecture_saas.Prelude.{
  ℕ, ◌+◌, String, Bool, true, false, not, Option, none, some, List, [], ◌∷◌, ◌==◌, if◌then◌else◌,
}
use clean_architecture_saas.Python.Exec.{value_error, Exec, pure, raise, attempt, ◌>>=◌, ◌>>◌}
use clean_architecture_saas.Cache.Client.{CacheClient}
use clean_architecture_saas.Cache.Keys.{◌&◌, session}
use clean_architecture_saas.Python.Text.{show}
use clean_architecture_saas.Tokens.Refresh.{RefreshToken, TokensRepository}
use clean_architecture_saas.Sessions.{Session}

-- The dictionary that `revoke_all_user_sessions` returns, without the total.
pub record Revoked : Type 0 where
  pub revoked_count : ℕ
  pub failed_count : ℕ

abbrev total_count : Revoked → ℕ
total_count r = r.revoked_count + r.failed_count

abbrev one_revoked : Bool → Revoked → Revoked
one_revoked true r = record r { revoked_count = r.revoked_count + 1 }
one_revoked false r = record r { failed_count = r.failed_count + 1 }

module _ {S : Type 0} (repo : TokensRepository S) (cache : Option (CacheClient S)) where
  abbrev pub forget : String → Exec S (Unit {0})
  forget h = elim cache [ none ↦ pure tt | some c ↦ attempt (c.delete (session h)) (λ e. pure tt) ]

  unfoldable pub revoke_user_session : String → Exec S Bool
  revoke_user_session h =
      attempt (do repo.revoke_refresh_token h; forget h; pure true) (λ e. pure false)

  -- The loop over the tokens.
  unfoldable pub revoke_tokens : List RefreshToken → Exec S Revoked
  revoke_tokens [] = pure (record { revoked_count = 0; failed_count = 0 })
  revoke_tokens (r ∷ rs) = if r.token_hash == "" then revoke_tokens rs else (do
    done ←
        attempt (do repo.revoke_refresh_token r.token_hash; forget r.token_hash; pure true)
          (λ e. pure false)
    counts ← revoke_tokens rs
    pure (one_revoked done counts))

  unfoldable pub revoke_all_user_sessions : ℕ → Exec S Revoked
  unfolding revoke_tokens
  revoke_all_user_sessions uid =
      attempt (do tokens ← repo.list_refresh_tokens_by_user uid; revoke_tokens tokens)
        (λ e. raise (value_error ("Failed to revoke tokens for user " & show uid)))

  abbrev list_user_sessions : ℕ → Exec S (List Session)
  list_user_sessions uid = repo.list_sessions_by_user uid
