-- ===== src/Users/Service/Safety.antt =====
-- What the service refuses, and what it does not look at.
use clean_architecture_saas.Prelude.{
  ℕ, String, ◌≡◌, ◌⊎◌, refl, ◌↔◌, Bool, true, false, Option, none, some, arith, Bool-cases, inl,
  inr,
}
use clean_architecture_saas.Python.Exec.{Exec, ok, Result-cases}
use clean_architecture_saas.Domain.User.{User}
use clean_architecture_saas.Cache.Client.{CacheClient}
use clean_architecture_saas.Tokens.EmailTokens.{TokenData}
use clean_architecture_saas.Tokens.Refresh.{TokensRepository}
use clean_architecture_saas.Users.Password.{validate_password_strength}
use clean_architecture_saas.Users.Repository.{UserRepository}
use clean_architecture_saas.Users.Service.{
  CryptContext, EmailTokenRepository, reset_password, change_password, authenticate_global,
  verified, is_true,
}

module _ {S : Type 0} (repo : UserRepository S) (crypt : CryptContext S)
    (email_tokens : Option (EmailTokenRepository S)) (token_urlsafe : Exec S String) (now : ℕ) where
  active_cases :
      (o : Option Bool)
      → (o ≡ some true) ⊎ (is_true repo crypt email_tokens token_urlsafe now o ≡ false)
  active_cases none = inr refl
  active_cases (some true) = inl refl
  active_cases (some false) = inr refl

  verified_sound :
      (password : String) (found : Option User) (u : User) (s : S)
      → (verified repo crypt email_tokens token_urlsafe now password found s).0 ≡ ok (some u)
      → (found ≡ some u)
        × (u.is_active ≡ some true)
        × ((crypt.verify password u.hashed_password s).0 ≡ ok true)
  verified_sound password none u s h = cc
  verified_sound password (some v) u s h = elim (active_cases v.is_active) [
    | inr off ↦ ground arith
    | inl on ↦ elim (Result-cases (crypt.verify password v.hashed_password s).0) [
      | inr (e, x) ↦ ground arith
      | inl (b, x) ↦ elim (Bool-cases b) [
        | inr wrong ↦ ground arith
        | inl right ↦ (ground arith, ground arith, ground arith)
      ]
    ]
  ]

  -- Given what the repository finds under the address, a login succeeds exactly if a user is found,
  -- the user is active and the password is verified against the stored hash.
  pub authenticate_iff :
      (email password : String) (u : User) (found : Option User) (s after : S)
      → repo.get_by_email_global email s ≡ (ok found, after)
      → ((authenticate_global repo crypt email_tokens token_urlsafe now email password s).0
          ≡ ok (some u))
        ↔ ((found ≡ some u)
            × (u.is_active ≡ some true)
            × ((crypt.verify password u.hashed_password after).0 ≡ ok true))
  unfolding authenticate_global
  authenticate_iff email password u found s after reads =
      (λ h. verified_sound password found u after (ground arith), λ (f, a, v). ground arith)

  -- With a wrong old password, and if reading and verifying write nothing, a change of the password
  -- answers false and writes nothing.
  wrong_password :
      (tokens : Option (TokensRepository S)) (cache : Option (CacheClient S)) (uid : ℕ)
      (old_password new_password : String) (u : User) (s : S)
      → repo.get_by_id uid s ≡ (ok (some u), s)
      → (validate_password_strength new_password).0 ≡ true
      → crypt.verify old_password u.hashed_password s ≡ (ok false, s)
      → change_password repo crypt email_tokens token_urlsafe now tokens cache uid old_password
          new_password s
        ≡ (ok false, s)
  unfolding change_password
  wrong_password tokens cache uid old_password new_password u s reads strong wrong = ground arith

-- The purpose of a token makes no difference to a reset: if two repositories find, under the token,
-- data for the same user, the password is reset alike, whatever the two purposes are.
pub reset_any_purpose :
    {S : Type 0} (repo : UserRepository S) (crypt : CryptContext S) (token_urlsafe : Exec S String)
    (now : ℕ) (tokens others : EmailTokenRepository S) (token password : String) (d e : TokenData)
    (s after : S)
    → tokens.consume_token token s ≡ (ok (some d), after)
    → others.consume_token token s ≡ (ok (some e), after)
    → d.user_id ≡ e.user_id
    → reset_password repo crypt (some tokens) token_urlsafe now token password s
      ≡ reset_password repo crypt (some others) token_urlsafe now token password s
unfolding reset_password
reset_any_purpose repo crypt token_urlsafe now tokens others token password d e s after a b same =
    ground arith
