-- ===== src/Requests/Isolation.antt =====
-- A request that goes on with a tenant and a user belongs to both.
use clean_architecture_saas.Prelude.{
  ℕ, String, ◌≡◌, sym, ◌∙◌, subst, eq_iff, Bool, true, false, Option, none, some, arith, Bool-cases,
  Option-cases, inl, inr, nat_eq_iff,
}
use clean_architecture_saas.Python.Exec.{Result, ok, Result-cases}
use clean_architecture_saas.Python.Int.{ℤ, pos}
use clean_architecture_saas.Python.Text.{parse_int}
use clean_architecture_saas.Python.Value.{Fields}
use clean_architecture_saas.Domain.Auth.{TokenClaims, Conversions}
use clean_architecture_saas.Domain.Tenant.{Tenant}
use clean_architecture_saas.Cache.Client.{CacheClient}
use clean_architecture_saas.Requests.{
  Request, RequestState, passes, Repositories, session_user, mismatch, permissions, inactive,
  with_user, with_tenant, resolve, claims_of, bearer, slug_of, dispatch, health,
}

module _ {S : Type 0} (py : Conversions) (decode : String → Result Fields)
    (sha256 : String → String) (repos : Option (Repositories S))
    (cache : Option (CacheClient S)) where
  same_tenant :
      (t : Tenant) (n : ℕ)
      → mismatch py decode sha256 repos cache (some t) (some (pos n)) ≡ false
      → t.id ≡ some n
  same_tenant t n h = elim (Option-cases t.id) [
    | inl none_id ↦ ground arith
    | inr (i, here) ↦ ground (arith, nat_eq_iff n i)
  ]

  user_sound :
      (tenant : Option Tenant) (user : Option TokenClaims) (s : S) (st : RequestState)
      → (with_user py decode sha256 repos cache tenant user s).0 ≡ ok (passes st)
      → (st.tenant ≡ tenant)
        × ((c : TokenClaims) (uid : ℤ)
            → st.current_user ≡ some c
            → parse_int c.subject ≡ some uid
            → mismatch py decode sha256 repos cache tenant c.tenant_id ≡ false)
  user_sound tenant none s st h = (ground arith, λ c uid a b. ground arith)
  user_sound tenant (some c) s st h = elim (Option-cases (parse_int c.subject)) [
    | inl no_id ↦ (ground arith, λ d uid a b. ground arith)
    | inr (uid, id) ↦ elim (Bool-cases (mismatch py decode sha256 repos cache tenant c.tenant_id)) [
      | inl other ↦ ground arith
      | inr same ↦
          let m = permissions py decode sha256 repos cache uid s in
          elim (Result-cases m.0) [
            | inl (ps, x) ↦ (ground arith, λ d u a b. ground arith)
            | inr (e, x) ↦ (ground arith, λ d u a b. ground arith)
          ]
    ]
  ]

  active_status :
      (t : Tenant) → inactive py decode sha256 repos cache (some t) ≡ false → t.status ≡ "active"
  active_status t h = ground (arith, eq_iff t.status "active")

  tenant_sound :
      (token : Option String) (claims : Option TokenClaims) (tenant : Option Tenant)
      (missing : Bool) (s : S) (st : RequestState) (t : Tenant) (c : TokenClaims) (uid : ℤ) (n : ℕ)
      → (with_tenant py decode sha256 repos cache token claims (tenant, missing) s).0
        ≡ ok (passes st)
      → st.tenant ≡ some t
      → st.current_user ≡ some c
      → parse_int c.subject ≡ some uid
      → c.tenant_id ≡ some (pos n)
      → (t.status ≡ "active") × (t.id ≡ some n)
  tenant_sound token claims tenant true s st t c uid n h a b d e = ground arith
  tenant_sound token claims tenant false s st t c uid n h a b d e =
      elim (Bool-cases (inactive py decode sha256 repos cache tenant)) [
        | inl off ↦ ground arith
        | inr on ↦
            let m = session_user py decode sha256 repos cache token claims s in
            elim (Result-cases m.0) [
              | inr (x, r) ↦ ground arith
              | inl (user, r) ↦
                  let (same, fits) = user_sound tenant user m.1 st (ground arith) in
                  let here : tenant ≡ some t = sym same ∙ a in
                  (
                    active_status t
                        (subst (λ o. inactive py decode sha256 repos cache o ≡ false) here on),
                    same_tenant t n (
                        subst (λ o. mismatch py decode sha256 repos cache o (some (pos n)) ≡ false)
                          here
                          (subst (λ o. mismatch py decode sha256 repos cache tenant o ≡ false) e
                            (fits c uid b d))),
                  )
            ]
      ]

  -- A request that goes on with a tenant, and with a user whose subject is a number and whose token
  -- names a tenant, goes on for that tenant, and the tenant is active.
  pub dispatch_isolates :
      (request : Request) (s : S) (st : RequestState) (t : Tenant) (c : TokenClaims) (uid : ℤ)
      (n : ℕ)
      → (dispatch py decode sha256 repos cache request s).0 ≡ ok (passes st)
      → st.tenant ≡ some t
      → st.current_user ≡ some c
      → parse_int c.subject ≡ some uid
      → c.tenant_id ≡ some (pos n)
      → (t.status ≡ "active") × (t.id ≡ some n)
  unfolding dispatch
  dispatch_isolates request s st t c uid n h a b d e = elim (Bool-cases (health request.path)) [
    | inl healthy ↦ ground arith
    | inr other ↦
        let token = bearer request.authorization in
        let claims = claims_of py decode sha256 repos cache token in
        let m = resolve py decode sha256 repos cache (slug_of request.host) claims s in
        elim (Result-cases m.0) [
          | inr (x, r) ↦ ground arith
          | inl (found, r) ↦
              tenant_sound token claims found.0 found.1 m.1 st t c uid n (ground arith) a b d e
        ]
  ]
