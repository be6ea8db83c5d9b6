-- ===== src/Access/Hierarchy/Order.antt =====
-- The order of the roles, and who may manage whom.
use clean_architecture_saas.Prelude.{
  ℕ, ◌<◌, ◌≡◌, refl, ◌↔◌, true, Option, none, some, arith, Bool-cases, inl, inr,
}
use clean_architecture_saas.Python.Exec.{ok, Result-cases}
use clean_architecture_saas.Python.Int.{ℤ, eq_ℤ}
use clean_architecture_saas.Python.Value.{Value}
use clean_architecture_saas.Domain.Auth.{TokenClaims}
use clean_architecture_saas.Domain.User.{User}
use clean_architecture_saas.Users.Repository.{UserRepository}
use clean_architecture_saas.Access.Permissions.{user_at}
use clean_architecture_saas.Access.Hierarchy.{
  Target, role_level, value_level, requested_role, user_id_to_check, subject_id, outranks,
  over_role, over_target, over_user, with_current, require_role_hierarchy,
}

-- Who may do what the request asks, with `lookup` for the users that are stored.
pub data Manages (lookup : ℤ → Option User) (t : Target) (uid : ℤ) : Type 0 where
  gives_role :
      (me : User) (role : Value) (n : ℕ)
      → lookup uid ≡ some me
      → requested_role t ≡ some role
      → value_level role ≡ ok n
      → n < role_level me.role
      → Manages lookup t uid
  itself :
      (me : User) (n : ℤ)
      → lookup uid ≡ some me
      → requested_role t ≡ none
      → user_id_to_check t ≡ some n
      → eq_ℤ n uid ≡ true
      → Manages lookup t uid
  outranked :
      (me you : User) (n : ℤ)
      → lookup uid ≡ some me
      → requested_role t ≡ none
      → user_id_to_check t ≡ some n
      → lookup n ≡ some you
      → role_level you.role < role_level me.role
      → Manages lookup t uid

outranks_sound : (m n : ℕ) → outranks m n ≡ ok true → n < m
outranks_sound m n h = ground arith

module _ {S : Type 0} (repo : UserRepository S) (lookup : ℤ → Option User) (s : S)
    (reads : (n : ℤ) → user_at repo n s ≡ (ok (lookup n), s)) (t : Target)
    (claims : Option TokenClaims) (uid : ℤ) (subject : subject_id claims ≡ some uid) where
  Manages-ok : Manages lookup t uid → (require_role_hierarchy repo t claims s).0 ≡ ok true
  unfolding require_role_hierarchy
  Manages-ok (gives_role me role n a b c d) = ground (arith, reads uid)
  Manages-ok (itself me n a b c d) = ground (arith, reads uid)
  Manages-ok (outranked me you n a b c d e) = ground (arith, reads uid, reads n)

  role_sound :
      (me : User) (role : Value)
      → lookup uid ≡ some me
      → requested_role t ≡ some role
      → (over_role repo (role_level me.role) role s).0 ≡ ok true
      → Manages lookup t uid
  role_sound me role a b h = elim (Result-cases (value_level role)) [
    | inl (n, e) ↦ gives_role me role n a b e (outranks_sound (role_level me.role) n (ground arith))
    | inr (x, e) ↦ ground arith
  ]

  target_sound :
      (me : User) (n : ℤ) (o : Option User)
      → lookup uid ≡ some me
      → requested_role t ≡ none
      → user_id_to_check t ≡ some n
      → lookup n ≡ o
      → over_target repo (role_level me.role) o ≡ ok true
      → Manages lookup t uid
  target_sound me n none a b c e h = cc
  target_sound me n (some you) a b c e h =
      outranked me you n a b c e (outranks_sound (role_level me.role) (role_level you.role) h)

  user_sound :
      (me : User) (o : Option ℤ)
      → lookup uid ≡ some me
      → requested_role t ≡ none
      → user_id_to_check t ≡ o
      → (over_user repo uid (role_level me.role) o s).0 ≡ ok true
      → Manages lookup t uid
  user_sound me none a b c h = cc
  user_sound me (some n) a b c h = elim (Bool-cases (eq_ℤ n uid)) [
    | inl same ↦ itself me n a b c same
    | inr other ↦ target_sound me n (lookup n) a b c refl (ground (arith, reads n))
  ]

  current_sound :
      (o : Option User) (r : Option Value)
      → lookup uid ≡ o
      → requested_role t ≡ r
      → (with_current repo t uid o s).0 ≡ ok true
      → Manages lookup t uid
  unfolding requested_role
  current_sound none r a b h = cc
  current_sound (some me) none a b h = user_sound me (user_id_to_check t) a b refl (ground arith)
  current_sound (some me) (some role) a b h = role_sound me role a b (ground arith)

  ok-Manages : (require_role_hierarchy repo t claims s).0 ≡ ok true → Manages lookup t uid
  unfolding require_role_hierarchy
  ok-Manages h = current_sound (lookup uid) (requested_role t) refl refl (ground (arith, reads uid))

  -- With what the repository reads of the users, and for a caller whose subject is a number, the
  -- dependency lets a request pass exactly if the caller is stored and either has a level above
  -- that of the role the request names, or the request names no role and its target is the caller
  -- or a stored user of a lower level.
  pub hierarchy_iff : ((require_role_hierarchy repo t claims s).0 ≡ ok true) ↔ Manages lookup t uid
  hierarchy_iff = (ok-Manages, Manages-ok)

-- When a request names a role, whom it acts on makes no difference: two requests that name the same
-- role get the same answer, whatever their target users are.
role_hides_target :
    {S : Type 0} (repo : UserRepository S) (claims : Option TokenClaims) (t u : Target)
    (role : Value) (s : S)
    → requested_role t ≡ some role
    → requested_role u ≡ some role
    → require_role_hierarchy repo t claims s ≡ require_role_hierarchy repo u claims s
unfolding require_role_hierarchy
role_hides_target repo claims t u role s a b = ground arith
