-- ===== src/Access/Permissions/Isolation.antt =====
-- Who reaches whom: the permission checks, and the border between tenants.
use clean_architecture_saas.Prelude.{
  String, ◌≡◌, ◌≢◌, refl, ◌↔◌, Bool, true, Option, none, some, List, [], ◌∷◌, arith, Some,
  Bool-cases, inl, inr,
}
use clean_architecture_saas.Python.Exec.{ok}
use clean_architecture_saas.Python.Int.{ℤ, pos, negsuc, eq_ℤ}
use clean_architecture_saas.Python.Text.{parse_int}
use clean_architecture_saas.Domain.Auth.{TokenClaims}
use clean_architecture_saas.Domain.User.{User}
use clean_architecture_saas.Users.Repository.{UserRepository}
use clean_architecture_saas.Access.Permissions.{
  member, require_permission, any_of, require_any_permission, user_at, same_tenant, reaches_all,
  check_user_access,
}

some_of_any :
    (names : List String) (claims : TokenClaims) (perms : List String)
    → any_of names perms ≡ ok true
    → Some (λ name. require_permission name (some claims) perms ≡ ok true) names
unfolding any_of require_permission
some_of_any [] claims perms h = cc
some_of_any (name ∷ names) claims perms h = elim (Bool-cases (member name perms)) [
  | inl here ↦ inl (ground arith)
  | inr later ↦ inr (some_of_any names claims perms (ground arith))
]

any_of-some :
    (names : List String) (claims : TokenClaims) (perms : List String)
    → Some (λ name. require_permission name (some claims) perms ≡ ok true) names
    → any_of names perms ≡ ok true
unfolding any_of require_permission
any_of-some [] claims perms h = elim h [ ]
any_of-some (name ∷ names) claims perms (inl here) = ground arith
any_of-some (name ∷ names) claims perms (inr later) =
    ground (arith, any_of-some names claims perms later)

none_passes :
    (names perms : List String)
    → Some (λ name. require_permission name none perms ≡ ok true) names
    → ⊥
unfolding require_permission
none_passes [] perms h = h
none_passes (name ∷ names) perms (inl here) = cc
none_passes (name ∷ names) perms (inr later) = none_passes names perms later

-- `require_any_permission` lets a request pass exactly if `require_permission` lets it pass for one
-- of the names.
any-require :
    (names : List String) (claims : Option TokenClaims) (perms : List String)
    → (require_any_permission names claims perms ≡ ok true)
      ↔ Some (λ name. require_permission name claims perms ≡ ok true) names
unfolding require_any_permission
any-require names none perms = (λ h. cc, λ h. absurd (none_passes names perms h))
any-require names (some claims) perms =
    (some_of_any names claims perms, any_of-some names claims perms)

-- What the access check allows, of a caller with id `me`.
pub data Reaches (perms : List String) (claims : TokenClaims) (allow_self : Bool) (me n : ℤ)
    (target : Option User) : Type 0 where
  itself : n ≡ me → allow_self ≡ true → Reaches perms claims allow_self me n target
  everyone : n ≢ me → reaches_all perms ≡ true → Reaches perms claims allow_self me n target
  neighbour :
      (u : User)
      → n ≢ me
      → target ≡ some u
      → claims.tenant_id ≡ some (pos u.tenant_id)
      → Reaches perms claims allow_self me n target

eq_ℤ_iff : (a b : ℤ) → (eq_ℤ a b ≡ true) ↔ (a ≡ b)
eq_ℤ_iff (pos a) (pos b) = ground arith
eq_ℤ_iff (pos a) (negsuc b) = ground arith
eq_ℤ_iff (negsuc a) (pos b) = ground arith
eq_ℤ_iff (negsuc a) (negsuc b) = ground arith

same_tenant_sound :
    (o : Option User) (t : Option ℤ)
    → same_tenant o t ≡ ok tt
    → (u : User) × (o ≡ some u) × (t ≡ some (pos u.tenant_id))
same_tenant_sound none t h = cc
same_tenant_sound (some u) none h = cc
same_tenant_sound (some u) (some i) h = (u, refl, ground (arith, eq_ℤ_iff (pos u.tenant_id) i))

module _ {S : Type 0} (repo : UserRepository S) (claims : TokenClaims) (perms : List String)
    (allow_self : Bool) (me n : ℤ) (target : Option User) (s after : S)
    (subject : parse_int claims.subject ≡ some me)
    (reads : user_at repo n s ≡ (ok target, after)) where
  Reaches-of_ok :
      (check_user_access repo n claims perms allow_self s).0 ≡ ok tt
      → Reaches perms claims allow_self me n target
  unfolding check_user_access
  Reaches-of_ok h = elim (Bool-cases (eq_ℤ n me)) [
    | inl same ↦ itself ((eq_ℤ_iff n me).0 same) (ground arith)
    | inr other ↦ elim (Bool-cases (reaches_all perms)) [
      | inl all ↦ everyone (ground (arith, eq_ℤ_iff n me)) all
      | inr few ↦
          let (u, t, c) = same_tenant_sound target claims.tenant_id (ground arith) in
          neighbour u (ground (arith, eq_ℤ_iff n me)) t c
    ]
  ]

  ok_of_Reaches :
      Reaches perms claims allow_self me n target
      → (check_user_access repo n claims perms allow_self s).0 ≡ ok tt
  unfolding check_user_access
  ok_of_Reaches (itself e a) = ground (arith, eq_ℤ_iff n me)
  ok_of_Reaches (everyone e a) = ground (arith, eq_ℤ_iff n me)
  ok_of_Reaches (neighbour u e t c) = ground (arith, eq_ℤ_iff n me)

  -- For a caller whose subject is a number, and with what the repository reads of the target, the
  -- check passes exactly if the target is the caller and that is allowed, or another user and some
  -- permission of the caller has `all_users`, `all_sessions` or `all_tenants` in its name, or another
  -- user of the tenant in the caller's token, for which no permission is asked.
  pub access_iff :
      ((check_user_access repo n claims perms allow_self s).0 ≡ ok tt)
      ↔ Reaches perms claims allow_self me n target
  access_iff = (Reaches-of_ok, ok_of_Reaches)
