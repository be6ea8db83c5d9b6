-- ===== src/Auth/Issue/RoundTrip.antt =====
-- A token that is issued carries its claims and its two moments.
use clean_architecture_saas.Prelude.{
  ℕ, String, ◌≡◌, refl, ◌∙◌, ap, false, Option, none, some, arith, ◌==◌, eq_iff,
}
use clean_architecture_saas.Python.Exec.{Result, ok, bind}
use clean_architecture_saas.Python.Int.{ℤ, pos}
use clean_architecture_saas.Python.Value.{
  num, Fields, end, field, get_field, set_field, drop_field, default_field,
}
use clean_architecture_saas.Python.Fields.{
  append, append-end, default_field-absent, append_assoc, get_field-append, drop_field-append,
  set_field-append, drop_field-absent,
}
use clean_architecture_saas.Cache.InMemory.{int_of}
use clean_architecture_saas.Domain.Auth.{
  TokenClaims, Conversions, start, from_payload, coerce_datetime, coerce_int, str_of,
}
use clean_architecture_saas.Domain.Auth.RoundTrip.{Unreserved, payload_lem}
use clean_architecture_saas.Auth.CurrentUser.{verify_token}
use clean_architecture_saas.Auth.Issue.{signed_payload, create_access_token, expire, issued}

-- The moments of a payload.
abbrev moments : ℕ → ℕ → Fields
moments exp iat = field "exp" (num (pos exp)) (field "iat" (num (pos iat)) end)

start_absent :
    (sub : String) (tid : Option ℤ) (k : String)
    → (k == "sub") ≡ false
    → (k == "tenant_id") ≡ false
    → get_field (start sub tid) k ≡ none
unfolding get_field
start_absent sub none k a b = ground (arith, eq_iff k "sub", eq_iff "sub" k)
start_absent sub (some n) k a b =
    ground (arith, eq_iff k "sub", eq_iff "sub" k, eq_iff k "tenant_id", eq_iff "tenant_id" k)

with_exp :
    (c : TokenClaims) (exp : ℕ)
    → Unreserved c.extra
    → set_field (append (start c.subject c.tenant_id) c.extra) "exp" (num (pos exp))
      ≡ append (append (start c.subject c.tenant_id) c.extra) (field "exp" (num (pos exp)) end)
with_exp c exp u =
    set_field-append (append (start c.subject c.tenant_id) c.extra) "exp" (num (pos exp)) (
      ground (
        arith,
        get_field-append (start c.subject c.tenant_id) c.extra "exp",
        start_absent c.subject c.tenant_id "exp" refl refl,
        u.no_exp,
      ))

last_absent : (exp : ℕ) → get_field (field "exp" (num (pos exp)) end) "iat" ≡ none
unfolding get_field
last_absent exp = refl

with_iat :
    (c : TokenClaims) (exp iat : ℕ)
    → Unreserved c.extra
    → default_field
        (append (append (start c.subject c.tenant_id) c.extra) (field "exp" (num (pos exp)) end))
        "iat"
        (num (pos iat))
      ≡ append (start c.subject c.tenant_id) (append c.extra (moments exp iat))
unfolding append
with_iat c exp iat u =
    let front = append (start c.subject c.tenant_id) c.extra in
    let last = field "exp" (num (pos exp)) end in
    default_field-absent (append front last) "iat" (num (pos iat)) (
      ground (
        arith,
        get_field-append front last "iat",
        get_field-append (start c.subject c.tenant_id) c.extra "iat",
        start_absent c.subject c.tenant_id "iat" refl refl,
        u.no_iat,
        last_absent exp,
      ))
    ∙ append_assoc front last (field "iat" (num (pos iat)) end)
    ∙ append_assoc (start c.subject c.tenant_id) c.extra (moments exp iat)

signed_lem :
    (now ttl : ℕ) (c : TokenClaims) (delta : Option ℕ)
    → Unreserved c.extra
    → signed_payload now ttl c delta
      ≡ append
          (start c.subject c.tenant_id)
          (append c.extra (moments (expire now ttl delta c.expires_at) (issued now c.issued_at)))
unfolding signed_payload
signed_lem now ttl c delta u =
    let exp : ℕ = expire now ttl delta c.expires_at in
    let iat : ℕ = issued now c.issued_at in
    ap (λ p. default_field (set_field p "exp" (num (pos exp))) "iat" (num (pos iat)))
      (payload_lem c u)
    ∙ ap (λ p. default_field p "iat" (num (pos iat))) (with_exp c exp u)
    ∙ with_iat c exp iat u

-- What `from_payload` finds after the fields of the start.
module _ (extra : Fields) (u : Unreserved extra) (exp iat : ℕ) where
  abbrev back : Fields
  back = append extra (moments exp iat)

  back_absent :
      (k : String)
      → get_field extra k ≡ none
      → (k == "exp") ≡ false
      → (k == "iat") ≡ false
      → (get_field back k ≡ none) × (drop_field back k ≡ back)
  unfolding get_field
  back_absent k n a b =
      let gone : get_field back k ≡ none = ground (
        arith,
        get_field-append extra (moments exp iat) k,
        n,
        eq_iff k "exp",
        eq_iff "exp" k,
        eq_iff k "iat",
        eq_iff "iat" k,
      ) in
      (gone, drop_field-absent back k gone)

  back_iat :
      (get_field back "iat" ≡ some (num (pos iat)))
      × (drop_field back "iat" ≡ append extra (field "exp" (num (pos exp)) end))
  unfolding get_field drop_field
  back_iat = (
    ground (arith, get_field-append extra (moments exp iat) "iat", u.no_iat),
    ground (
      arith,
      drop_field-append extra (moments exp iat) "iat",
      drop_field-absent extra "iat" u.no_iat,
    ),
  )

  back_exp :
      (get_field (append extra (field "exp" (num (pos exp)) end)) "exp" ≡ some (num (pos exp)))
      × (drop_field (append extra (field "exp" (num (pos exp)) end)) "exp" ≡ extra)
  unfolding get_field drop_field
  back_exp = (
    ground (arith, get_field-append extra (field "exp" (num (pos exp)) end) "exp", u.no_exp),
    ground (
      arith,
      drop_field-append extra (field "exp" (num (pos exp)) end) "exp",
      drop_field-absent extra "exp" u.no_exp,
      append-end extra,
    ),
  )

  read_back :
      (py : Conversions) (sub : String) (tid : Option ℤ)
      → py.fromtimestamp (num (pos iat)) ≡ some iat
      → py.fromtimestamp (num (pos exp)) ≡ some exp
      → from_payload py (append (start sub tid) back)
        ≡ ok (record {
          subject = sub;
          tenant_id = tid;
          issued_at = some iat;
          expires_at = some exp;
          extra = extra;
        })
  unfolding from_payload append get_field drop_field coerce_int coerce_datetime str_of int_of
  read_back py sub none a b = ground (
    arith,
    back_absent "sub" u.no_sub refl refl,
    back_absent "tenant_id" u.no_tenant refl refl,
    back_iat,
    back_exp,
  )
  read_back py sub (some n) a b = ground (
    arith,
    back_absent "sub" u.no_sub refl refl,
    back_absent "tenant_id" u.no_tenant refl refl,
    back_iat,
    back_exp,
  )

-- If the signed payload is decoded as it was encoded, and with moments that are read from their seconds: the token
-- that is issued for claims, whose further fields use no reserved name, is verified as those claims
-- with the moment of issue and the moment of expiry.
pub verify-create :
    (py : Conversions) (decode : String → Result Fields) (encode : Fields → String) (now ttl : ℕ)
    (c : TokenClaims) (delta : Option ℕ)
    → decode (encode (signed_payload now ttl c delta)) ≡ ok (signed_payload now ttl c delta)
    → ((t : ℕ) → py.fromtimestamp (num (pos t)) ≡ some t)
    → Unreserved c.extra
    → verify_token py decode (create_access_token encode now ttl c delta)
      ≡ ok (record c {
        issued_at = some (issued now c.issued_at);
        expires_at = some (expire now ttl delta c.expires_at);
      })
unfolding verify_token create_access_token
verify-create py decode encode now ttl c delta signature seconds u =
    let exp : ℕ = expire now ttl delta c.expires_at in
    let iat : ℕ = issued now c.issued_at in
    ap (λ r. bind r (from_payload py)) signature
    ∙ ap (from_payload py) (signed_lem now ttl c delta u)
    ∙ read_back c.extra u exp iat py c.subject c.tenant_id (seconds iat) (seconds exp)
