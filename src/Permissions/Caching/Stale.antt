-- ===== src/Permissions/Caching/Stale.antt =====
-- What a change of a role leaves in the cache.
use clean_architecture_saas.Prelude.{
  ℕ, String, ◌≡◌, ap, false, Option, none, some, List, arith, ◌==◌, eq_iff, inl, inr,
}
use clean_architecture_saas.Python.Exec.{Exec, ok, Result-cases}
use clean_architecture_saas.Python.Text.{show}
use clean_architecture_saas.Python.Value.{Value, texts}
use clean_architecture_saas.Cache.Client.{CacheClient}
use clean_architecture_saas.Cache.Documented.{Works}
use clean_architecture_saas.Cache.Keys.{apart}
use clean_architecture_saas.Permissions.{RolePermissions}
use clean_architecture_saas.Permissions.Caching.{
  role_key, user_key, get_role_permissions, list_user_permissions, set_role_permissions,
}

role_key-user_key : (role : String) (id : ℕ) → (role_key role == user_key id) ≡ false
role_key-user_key role id = apart "perm:role:" "perm:user:" role (show id) (λ p. ground arith)

module _ {S : Type 0} (inner : RolePermissions S) (cache : CacheClient S)
    (see : S → String → Option Value) (works : Works cache see) (ttl : ℕ) where
  abbrev change : String → List String → Exec S (Unit {0})
  change role names = set_role_permissions inner (some cache) ttl role names

  changed :
      (role : String) (names : List String) (s : S)
      → (inner.set_role_permissions role names s).0 ≡ ok tt
      → change role names s
        ≡ (ok tt, (cache.delete (role_key role) (inner.set_role_permissions role names s).1).1)
  unfolding set_role_permissions
  changed role names s done =
      ground
        (arith, works.delete_ok (role_key role) (inner.set_role_permissions role names s).1, done)

  fresh :
      (role : String) (s : S)
      → see s (role_key role) ≡ none
      → (get_role_permissions inner (some cache) ttl role s).0
        ≡ (inner.get_role_permissions role (cache.get (role_key role) s).1).0
  unfolding get_role_permissions
  fresh role s gone =
      let t = (cache.get (role_key role) s).1 in
      let u = (inner.get_role_permissions role t).1 in
      elim (Result-cases (inner.get_role_permissions role t).0) [
        | inl (names, e) ↦ ground (
          arith,
          works.get_ok (role_key role) s,
          works.set_ok (role_key role) (texts names) (some ttl) u,
        )
        | inr (x, e) ↦ ground (arith, works.get_ok (role_key role) s)
      ]

  -- A user whose permissions are cached keeps them, whatever role is changed and to what, though the
  -- role itself is read from the repository below at once. (With a cache that works, and a change that
  -- succeeds and writes nothing to the cache.)
  pub permissions_stale :
      (role : String) (names kept : List String) (id : ℕ) (s : S)
      → let t = (inner.set_role_permissions role names s).1 in
        (inner.set_role_permissions role names s).0 ≡ ok tt
        → see t (user_key id) ≡ see s (user_key id)
        → see s (user_key id) ≡ some (texts kept)
        → let after = (change role names s).1 in
          ((list_user_permissions inner (some cache) ttl id after).0 ≡ ok kept)
          × ((get_role_permissions inner (some cache) ttl role after).0
              ≡ (inner.get_role_permissions role (cache.get (role_key role) after).1).0)
  unfolding list_user_permissions
  permissions_stale role names kept id s done aside cached =
      let t = (inner.set_role_permissions role names s).1 in
      let u = (cache.delete (role_key role) t).1 in
      let same : (change role names s).1 ≡ u = ap (λ p. p.1) (changed role names s done) in
      rw same (
        (
          ground (
            arith,
            works.get_ok (user_key id) u,
            works.delete_see (role_key role) (user_key id) t,
            role_key-user_key role id,
          ),
          fresh role u (
              ground (
                arith,
                works.delete_see (role_key role) (role_key role) t,
                eq_iff (role_key role) (role_key role),
              )),
        ))
