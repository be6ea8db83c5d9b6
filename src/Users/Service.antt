-- ===== src/Users/Service.antt =====
-- services/user_service.py and services/email_token_service.py, over any repositories. Hashing is
-- `passlib`'s, random tokens are `secrets`' and the sending of mail is a client's: all are
-- parameters. The logging is left out.
pub mod Safety
use clean_architecture_saas.Prelude.{
  ℕ, String, Bool, true, false, not, Option, none, some, List, [], ◌∷◌, ◌==◌, if◌then◌else◌,
}
use clean_architecture_saas.Python.Exec.{
  failure, value_error, Exec, pure, raise, attempt, ◌>>=◌, ◌>>◌,
}
use clean_architecture_saas.Python.Int.{ℤ, pos, negsuc}
use clean_architecture_saas.Python.Value.{Value, text, Fields, end, field, get_field, truthy}
use clean_architecture_saas.Domain.User.{User, post_init}
use clean_architecture_saas.Cache.Client.{CacheClient}
use clean_architecture_saas.Cache.Keys.{session}
use clean_architecture_saas.Sessions.{Session}
use clean_architecture_saas.Tokens.EmailTokens
use clean_architecture_saas.Tokens.EmailTokens.{TokenData}
use clean_architecture_saas.Tokens.Refresh.{RefreshToken, TokensRepository}
use clean_architecture_saas.Users.Password.{validate_password_strength}
use clean_architecture_saas.Users.Repository.{UserRepository}

-- `passlib`'s `CryptContext`, which salts a hash and may not know the scheme of one.
pub record CryptContext (S : Type 0) : Type 0 where
  pub hash : String → Exec S String
  pub verify : String → String → Exec S Bool

-- ports/repositories/token.py
pub record EmailTokenRepository (S : Type 0) : Type 0 where
  pub create_token : ℕ → String → String → Option Fields → ℕ → Exec S (Unit {0})
  pub consume_token : String → Exec S (Option TokenData)

-- `EmailTokenCacheRepository`
abbrev pub cached_tokens : {S : Type 0} → CacheClient S → EmailTokenRepository S
cached_tokens cache = record {
  create_token = EmailTokens.create_token cache;
  consume_token = EmailTokens.consume_token cache;
}

-- What `UserService` sends by mail: the address and the token.
pub record EmailSender (S : Type 0) : Type 0 where
  pub send_password_reset : String → String → Exec S (Unit {0})
  pub send_verification : String → String → Exec S (Unit {0})

-- A row of no id is never written.
abbrev pub on_id : {S : Type 0} → (ℕ → Exec S (Unit {0})) → ℤ → Exec S (Unit {0})
on_id f (pos n) = f n
on_id f (negsuc n) = pure tt

abbrev pub or_zero : Option ℕ → ℕ
or_zero none = 0
or_zero (some n) = n

-- The token's address comes before the argument, if it is there and not empty.
unfoldable pub target_email : TokenData → String → Value
unfolding get_field
target_email d new_email = elim d.extra [
  | none ↦ text new_email
  | some fs ↦ elim (get_field fs "new_email") [
    | none ↦ text new_email
    | some v ↦ if truthy v then v else text new_email
  ]
]

module _ {S : Type 0} (repo : UserRepository S) (crypt : CryptContext S)
    (email_tokens : Option (EmailTokenRepository S)) (token_urlsafe : Exec S String) (now : ℕ) where
  -- `EmailTokenService.create_token`
  unfoldable pub create_token :
      EmailTokenRepository S → ℕ → String → Option Fields → ℕ → Exec S String
  create_token tokens uid purpose extra ttl = do
    token ← token_urlsafe
    tokens.create_token uid token purpose extra ttl
    pure token

  -- The two convenience methods, with the default lifetime of an hour.
  unfoldable pub create_email_verification_token :
      EmailTokenRepository S → ℕ → String → Exec S String
  unfolding create_token
  create_email_verification_token tokens uid email =
      create_token tokens uid "email_verification" (some (field "email" (text email) end)) 3600

  unfoldable pub create_email_update_token : EmailTokenRepository S → ℕ → String → Exec S String
  unfolding create_token
  create_email_update_token tokens uid new_email =
      create_token tokens uid "email_update" (some (field "new_email" (text new_email) end)) 3600

  -- A weak password is refused before anything is done.
  abbrev pub if_strong : {A : Type 0} → String → Exec S A → Exec S A
  if_strong password m =
      let (valid, error) = validate_password_strength password in
      if valid then m else raise (value_error error)

  unfoldable pub create_user :
      ℕ → String → String → String → Option String → Option String → Exec S User
  unfolding validate_password_strength
  create_user tid email password role first_name last_name = if_strong password (do
    hashed ← crypt.hash password
    repo.create (
        post_init now (record {
          id = none;
          tenant_id = tid;
          email = email;
          hashed_password = hashed;
          first_name = first_name;
          last_name = last_name;
          role = role;
          email_verified = false;
          audit_enabled = false;
          is_active = some true;
          last_login_at = none;
          created_at = none;
          updated_at = none;
        })))

  -- `bool(user.is_active)`
  abbrev pub is_true : Option Bool → Bool
  is_true none = false
  is_true (some b) = b

  abbrev pub verified : String → Option User → Exec S (Option User)
  verified password none = pure none
  verified password (some u) =
      if is_true u.is_active
      then (do same ← crypt.verify password u.hashed_password; pure (if same then some u else none))
      else pure none

  unfoldable pub authenticate_global : String → String → Exec S (Option User)
  authenticate_global email password = do
    found ← repo.get_by_email_global email
    verified password found

  unfoldable pub set_last_login : ℕ → Exec S (Unit {0})
  set_last_login uid = repo.update_last_login uid now

  abbrev reset_mail : EmailSender S → Option User → Option (EmailTokenRepository S) → Exec S Bool
  reset_mail sender none tokens = pure false
  reset_mail sender (some u) none = pure false
  reset_mail sender (some u) (some tokens) = do
    token ← create_token tokens (or_zero u.id) "password_reset" none 3600
    sender.send_password_reset u.email token
    pure true

  unfoldable pub request_password_reset : EmailSender S → ℕ → String → Exec S Bool
  unfolding create_token
  request_password_reset sender tid email = do
    found ← repo.get_by_email tid email
    reset_mail sender found email_tokens

  abbrev set_hash : String → Option TokenData → Exec S Bool
  set_hash password none = pure false
  set_hash password (some d) = do
    hashed ← crypt.hash password
    on_id (λ n. repo.set_password n hashed) d.user_id
    pure true

  abbrev pub consumed :
      String → Option (EmailTokenRepository S) → (Option TokenData → Exec S Bool) → Exec S Bool
  consumed token none next = pure false
  consumed token (some tokens) next = do found ← tokens.consume_token token; next found

  unfoldable pub reset_password : String → String → Exec S Bool
  unfolding validate_password_strength
  reset_password token new_password =
      if_strong new_password (consumed token email_tokens (set_hash new_password))

  abbrev change_mail :
      EmailSender S → String → Option User → Option (EmailTokenRepository S) → Exec S Bool
  change_mail sender new_email none tokens = pure false
  change_mail sender new_email (some u) none = pure false
  change_mail sender new_email (some u) (some tokens) = do
    token ←
        create_token tokens (or_zero u.id) "email_update"
          (some (field "new_email" (text new_email) end)) 3600
    sender.send_verification new_email token
    pure true

  unfoldable pub request_email_change : EmailSender S → ℕ → String → String → Exec S Bool
  unfolding create_token
  request_email_change sender tid current_email new_email = do
    found ← repo.get_by_email tid current_email
    change_mail sender new_email found email_tokens

  -- The column takes texts only.
  abbrev set_address : ℤ → Value → Exec S (Unit {0})
  set_address uid (text email) = on_id (λ n. repo.set_email n email) uid
  set_address uid v = raise (failure "refused by the database")

  abbrev new_address : String → Option TokenData → Exec S Bool
  new_address new_email none = pure false
  new_address new_email (some d) =
      if truthy (target_email d new_email)
      then (do set_address d.user_id (target_email d new_email); pure true)
      else pure false

  unfoldable pub confirm_email_change : String → String → Exec S Bool
  unfolding target_email
  confirm_email_change token new_email = consumed token email_tokens (new_address new_email)

  abbrev forget_session : Option (CacheClient S) → String → Exec S (Unit {0})
  forget_session none h = pure tt
  forget_session (some cache) h = cache.delete (session h)

  unfoldable pub revoke_tokens :
      TokensRepository S → Option (CacheClient S) → List RefreshToken → Exec S (Unit {0})
  revoke_tokens tokens cache [] = pure tt
  revoke_tokens tokens cache (t ∷ ts) =
      if t.token_hash == "" then revoke_tokens tokens cache ts else (do
        tokens.revoke_refresh_token t.token_hash
        forget_session cache t.token_hash
        revoke_tokens tokens cache ts)

  unfoldable pub revoke_sessions : TokensRepository S → List Session → Exec S (Unit {0})
  revoke_sessions tokens [] = pure tt
  revoke_sessions tokens (s ∷ ss) =
      if s.session_id == ""
      then revoke_sessions tokens ss
      else (do tokens.revoke_session s.session_id; revoke_sessions tokens ss)

  unfoldable pub end_sessions :
      Option (TokensRepository S) → Option (CacheClient S) → ℕ → Exec S (Unit {0})
  unfolding revoke_tokens revoke_sessions
  end_sessions none cache uid = pure tt
  end_sessions (some tokens) cache uid = do
    ts ← tokens.list_refresh_tokens_by_user uid
    revoke_tokens tokens cache ts
    ss ← tokens.list_sessions_by_user uid
    revoke_sessions tokens ss

  abbrev with_user :
      Option (TokensRepository S)
      → Option (CacheClient S)
      → ℕ
      → String
      → String
      → Option User
      → Exec S Bool
  with_user tokens cache uid old_password new_password none = pure false
  with_user tokens cache uid old_password new_password (some u) = if_strong new_password (do
    same ← crypt.verify old_password u.hashed_password
    if same
        then (do
          hashed ← crypt.hash new_password
          repo.set_password uid hashed
          end_sessions tokens cache uid
          pure true)
        else pure false)

  unfoldable pub change_password :
      Option (TokensRepository S) → Option (CacheClient S) → ℕ → String → String → Exec S Bool
  unfolding end_sessions validate_password_strength
  change_password tokens cache uid old_password new_password = do
    found ← repo.get_by_id uid
    with_user tokens cache uid old_password new_password found
