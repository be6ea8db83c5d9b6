-- ===== src/Auth/CurrentUser/Checks.antt =====
-- What `get_current_user` checks, and what a lost session means.
use clean_architecture_saas.Prelude.{
  ℕ, String, ◌≡◌, ◌⊎◌, refl, inl, inr, false, Option, none, some, arith, Bool-cases,
}
use clean_architecture_saas.Python.Exec.{
  Exc, value_error, attribute_error, http, failure, Result, ok, raised, Exec, raise, attempt,
  Result-cases,
}
use clean_architecture_saas.Python.Value.{Fields, text, truthy, or_nul}
use clean_architecture_saas.Domain.Auth.{TokenClaims, Conversions}
use clean_architecture_saas.Cache.Client.{CacheClient}
use clean_architecture_saas.Cache.Keys.{session}
use clean_architecture_saas.Tokens.Refresh.{TokensRepository}
use clean_architecture_saas.Auth.CurrentUser.{
  verify_token, session_lost, cache_failed, restore, entry_checked, in_session, authenticated,
  get_current_user,
}

-- Behind a handler that only raises, a result is the body's own.
only_raises :
    {S A : Type 0} (m : Exec S A) (h : Exc → Exec S A)
    → ((e : Exc) (t : S) (a : A) → (h e t).0 ≡ ok a → ⊥)
    → (s : S) (a : A) → (attempt m h s).0 ≡ ok a
    → (m s).0 ≡ ok a
only_raises m h never s a k = elim (Result-cases (m s).0) [
  | inl (b, x) ↦ ground arith
  | inr (e, x) ↦ absurd (never e (m s).1 a (ground arith))
]

module _ {S : Type 0} (py : Conversions) (decode : String → Result Fields)
    (sha256 : String → String) (repo : Option (TokensRepository S)) (cache : CacheClient S)
    (ttl : ℕ) where
  lost_raises :
      (e : Exc) (s : S) (c : TokenClaims)
      → (session_lost py decode sha256 repo cache ttl e s).0 ≡ ok c
      → ⊥
  lost_raises (http n d) s c h = cc
  lost_raises (attribute_error m) s c h = cc
  lost_raises (value_error m) s c h = cc
  lost_raises (failure m) s c h = cc

  failed_raises :
      (e : Exc) (s : S) (c : TokenClaims)
      → (cache_failed py decode sha256 repo cache ttl e s).0 ≡ ok c
      → ⊥
  failed_raises (http n d) s c h = cc
  failed_raises (attribute_error m) s c h = cc
  failed_raises (value_error m) s c h = cc
  failed_raises (failure m) s c h = cc

module _ {S : Type 0} (py : Conversions) (decode : String → Result Fields)
    (sha256 : String → String) (r : TokensRepository S) (cache : CacheClient S) (ttl : ℕ)
    (token : String) where
  restore_same :
      (claims c : TokenClaims) (s : S)
      → (restore py decode sha256 (some r) cache ttl token claims s).0 ≡ ok c
      → c ≡ claims
  restore_same claims c s h = elim (Result-cases (r.is_token_blacklisted token s).0) [
    | inr (e, x) ↦ absurd (
        lost_raises py decode sha256 (some r) cache ttl e (r.is_token_blacklisted token s).1 c
          (ground arith))
    | inl (b, x) ↦ elim (Bool-cases b) [
      | inl t ↦ ground arith
      | inr f ↦
          elim (Result-cases
            (cache.set (session (sha256 token)) (text token) (some ttl)
              (r.is_token_blacklisted token s).1).0) [
                | inl (u, y) ↦ ground arith
                | inr (e, y) ↦ absurd (
                    lost_raises py decode sha256 (some r) cache ttl e
                      (cache.set (session (sha256 token)) (text token) (some ttl)
                        (r.is_token_blacklisted token s).1).1
                      c (ground arith))
              ]
    ]
  ]

  entry_same :
      (claims c : TokenClaims) (s : S)
      → (entry_checked py decode sha256 (some r) cache ttl token claims s).0 ≡ ok c
      → c ≡ claims
  entry_same claims c s h = elim (Result-cases (cache.get (session (sha256 token)) s).0) [
    | inr (e, x) ↦ ground arith
    | inl (o, x) ↦ elim (Bool-cases (truthy (or_nul o))) [
      | inl there ↦ ground arith
      | inr gone ↦ restore_same claims c (cache.get (session (sha256 token)) s).1 (ground arith)
    ]
  ]

  in_session_same :
      (claims c : TokenClaims) (s : S)
      → (in_session py decode sha256 (some r) cache ttl token claims s).0 ≡ ok c
      → c ≡ claims
  in_session_same claims c s h = entry_same claims c s (
      only_raises (entry_checked py decode sha256 (some r) cache ttl token claims)
        (cache_failed py decode sha256 (some r) cache ttl)
        (λ e t a. failed_raises py decode sha256 (some r) cache ttl e t a) s c h)

  -- The token was not on the blacklist, or the repository could not tell by an `AttributeError`.
  abbrev pub Unbarred : S → Type 0
  Unbarred s =
      ((r.is_token_blacklisted token s).0 ≡ ok false)
      ⊎ ((m : String) × ((r.is_token_blacklisted token s).0 ≡ raised (attribute_error m)))

  -- Only an `AttributeError` of the blacklist is passed over.
  passed_over :
      (e : Exc) (c claims : TokenClaims) (s : S)
      → verify_token py decode token ≡ ok c
      → (r.is_token_blacklisted token s).0 ≡ raised e
      → (authenticated py decode sha256 (some r) cache ttl token s).0 ≡ ok claims
      → (claims ≡ c) × (m : String) × (e ≡ attribute_error m)
  passed_over (attribute_error m) c claims s v x h =
      (in_session_same c claims (r.is_token_blacklisted token s).1 (ground arith), m, refl)
  passed_over (value_error m) c claims s v x h = absurd (ground arith)
  passed_over (http n d) c claims s v x h = absurd (ground arith)
  passed_over (failure m) c claims s v x h = absurd (ground arith)

  authenticated_sound :
      (claims : TokenClaims) (s : S)
      → (authenticated py decode sha256 (some r) cache ttl token s).0 ≡ ok claims
      → (verify_token py decode token ≡ ok claims) × Unbarred s
  authenticated_sound claims s h = elim (Result-cases (verify_token py decode token)) [
    | inr (e, x) ↦ absurd (ground arith)
    | inl (c, x) ↦ elim (Result-cases (r.is_token_blacklisted token s).0) [
      | inr (e, y) ↦
          let (same, m, attribute) = passed_over e c claims s x y h in
          (ground (arith, same), inr (m, ground (arith, attribute)))
      | inl (b, y) ↦ elim (Bool-cases b) [
        | inl t ↦ absurd (ground arith)
        | inr f ↦ (
          ground (arith, in_session_same c claims (r.is_token_blacklisted token s).1),
          inl (ground arith),
        )
      ]
    ]
  ]

  -- With a repository of tokens: an exception that the dependency raises is always the 401 with the
  -- detail "Invalid token".
  fails_alike :
      (resolved : Option TokenClaims) (s : S) (e : Exc)
      → (get_current_user py decode sha256 (some r) cache ttl resolved token s).0 ≡ raised e
      → e ≡ http 401 "Invalid token"
  unfolding get_current_user
  fails_alike none s e h =
      elim (Result-cases (authenticated py decode sha256 (some r) cache ttl token s).0) [
        | inl (a, x) ↦ ground arith
        | inr (x, y) ↦ ground arith
      ]
  fails_alike (some c) s e h = cc

  -- Claims that no middleware resolved come from a token that is decoded, and that was not on the
  -- blacklist when the dependency asked, or of which the repository could not tell by an
  -- `AttributeError`.
  pub current_user_sound :
      (claims : TokenClaims) (s : S)
      → (get_current_user py decode sha256 (some r) cache ttl none token s).0 ≡ ok claims
      → (verify_token py decode token ≡ ok claims) × Unbarred s
  unfolding get_current_user
  current_user_sound claims s h = authenticated_sound claims s (
      only_raises (authenticated py decode sha256 (some r) cache ttl token)
        (λ e. raise (http 401 "Invalid token")) (λ e t a x. ground arith) s claims h)
