-- ===== src/Sessions.antt =====
-- infrastructure/repositories/session_cache_repository.py, over any cache client. `Session` is the
-- dictionary with the keys "session_id" and "token".
pub mod Service
pub mod Effects
pub mod Revocation
use clean_architecture_saas.Prelude.{
  ℕ, ◌+◌, String, Option, none, some, List, [], ◌∷◌, ◌++◌, map, any, length, nat_eq, ◌==◌,
  if◌then◌else◌,
}
use clean_architecture_saas.Python.Exec.{failure, Exec, pure, raise, attempt, ◌>>=◌, ◌>>◌}
use clean_architecture_saas.Python.Value.{Value, texts, truthy}
use clean_architecture_saas.Cache.Client.{CacheClient}
use clean_architecture_saas.Cache.Keys.{session, user_sessions}

pub record Session : Type 0 where
  pub session_id : String
  pub token : Value

-- `lst or []`, of a key that holds a list of hashes; any other value makes the loop raise.
unfoldable pub hashes : {S : Type 0} → Option Value → Exec S (List String)
hashes none = pure []
hashes (some (texts hs)) = pure hs
hashes (some v) = if truthy v then raise (failure "not a list of hashes") else pure []

abbrev ttl_of_list : Option ℕ → Option ℕ
ttl_of_list none = none
ttl_of_list (some ex) = some (ex + 3600)

abbrev pub found_session : String → Option Value → List Session → List Session
found_session h none rest = rest
found_session h (some token) rest =
    if truthy token then record { session_id = h; token = token } ∷ rest else rest

module _ {S : Type 0} (cache : CacheClient S) where
  open cache use {get, set, delete}

  unfoldable pub add_session : ℕ → String → String → Option ℕ → Exec S (Unit {0})
  unfolding hashes
  add_session uid access_hash token ex =
      attempt
        (do
          set (session access_hash) (Value.text token) ex
          found ← get (user_sessions uid)
          lst ← hashes found
          if any (λ h. h == access_hash) lst
              then pure tt
              else set (user_sessions uid) (texts (lst ++ access_hash ∷ [])) (ttl_of_list ex))
        (λ e. pure tt)

  unfoldable pub get_session : String → Exec S (Option Value)
  get_session session_id = attempt (get (session session_id)) (λ e. pure none)

  -- The loop over the hashes: the sessions whose token is still there. `valid_hashes` are their ids.
  unfoldable pub collect : List String → Exec S (List Session)
  collect [] = pure []
  collect (h ∷ hs) = do
    token ← get (session h)
    rest ← collect hs
    pure (found_session h token rest)

  -- The list without its stale hashes is written back, if there were any; without a TTL.
  unfoldable pub cleanup : ℕ → List String → List Session → Exec S (Unit {0})
  cleanup uid lst sessions =
      if nat_eq (length sessions) (length lst)
      then pure tt
      else attempt (set (user_sessions uid) (texts (map (λ s. s.session_id) sessions)) none)
          (λ e. pure tt)

  unfoldable pub list_user_sessions : ℕ → Exec S (List Session)
  unfolding hashes collect cleanup
  list_user_sessions uid =
      attempt
        (do
          found ← get (user_sessions uid)
          lst ← hashes found
          sessions ← collect lst
          cleanup uid lst sessions
          pure sessions)
        (λ e. pure [])

  unfoldable pub revoke_session : String → Exec S (Unit {0})
  revoke_session session_id = attempt (delete (session session_id)) (λ e. pure tt)

  -- The loop of `revoke_all_user_sessions`, with the number of sessions revoked.
  unfoldable pub revoke_each : List Session → Exec S ℕ
  unfolding revoke_session
  revoke_each [] = pure 0
  revoke_each (s ∷ rest) =
      if s.session_id == ""
      then revoke_each rest
      else (do revoke_session s.session_id; count ← revoke_each rest; pure (count + 1))

  unfoldable pub revoke_all_user_sessions : ℕ → Exec S ℕ
  unfolding list_user_sessions revoke_each
  revoke_all_user_sessions uid =
      attempt
        (do
          sessions ← list_user_sessions uid
          count ← revoke_each sessions
          delete (user_sessions uid)
          pure count)
        (λ e. pure 0)
