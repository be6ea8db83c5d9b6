-- ===== src/Domain/Auth/RoundTrip.antt =====
-- Claims that are turned into a payload are read back from it.
use clean_architecture_saas.Prelude.{String, ◌≡◌, sym, ◌∙◌, ap, Option, none, some, arith, eq_iff}
use clean_architecture_saas.Python.Exec.{ok}
use clean_architecture_saas.Python.Int.{ℤ}
use clean_architecture_saas.Python.Value.{
  Value, Fields, end, field, get_field, set_field, drop_field,
}
use clean_architecture_saas.Python.Fields.{
  IsDistinct, append, append-end, append-append, get_field-set_field, set_field-append,
  drop_field-absent,
}
use clean_architecture_saas.Cache.InMemory.{int_of}
use clean_architecture_saas.Domain.Auth.{
  TokenClaims, Conversions, start, update_fields, to_payload, from_payload, coerce_datetime,
  coerce_int, str_of,
}

-- No key of the second is one of the first.
Apart : Fields → Fields → Type 0
Apart p end = Unit
Apart p (field k v fs) = (get_field p k ≡ none) × Apart p fs

Apart-set_field :
    (p fs : Fields) (k : String) (v : Value)
    → get_field fs k ≡ none
    → Apart p fs
    → Apart (set_field p k v) fs
unfolding Apart get_field
Apart-set_field p end k v h a = tt
Apart-set_field p (field j w fs) k v h (n, a) =
    ground (arith, eq_iff j k, eq_iff k j, get_field-set_field p k j v, Apart-set_field p fs k v)

update-append : (p fs : Fields) → IsDistinct fs → Apart p fs → update_fields p fs ≡ append p fs
unfolding update_fields Apart
update-append p end d a = sym (append-end p)
update-append p (field k v fs) (n, d) (m, a) =
    update-append (set_field p k v) fs d (Apart-set_field p fs k v n a)
    ∙ ap (λ q. append q fs) (set_field-append p k v m)
    ∙ append-append p k v fs

-- The names that `from_payload` takes out of a payload.
pub record Unreserved (extra : Fields) : Type 0 where
  pub distinct : IsDistinct extra
  pub no_sub : get_field extra "sub" ≡ none
  pub no_tenant : get_field extra "tenant_id" ≡ none
  pub no_iat : get_field extra "iat" ≡ none
  pub no_exp : get_field extra "exp" ≡ none

Apart-start :
    (sub : String) (tid : Option ℤ) (fs : Fields)
    → get_field fs "sub" ≡ none
    → get_field fs "tenant_id" ≡ none
    → Apart (start sub tid) fs
unfolding Apart get_field
Apart-start sub tid end a b = tt
Apart-start sub none (field k v fs) a b =
    ground (arith, eq_iff k "sub", eq_iff "sub" k, Apart-start sub none fs)
Apart-start sub (some n) (field k v fs) a b = ground (
  arith,
  eq_iff k "sub",
  eq_iff "sub" k,
  eq_iff k "tenant_id",
  eq_iff "tenant_id" k,
  Apart-start sub (some n) fs,
)

pub payload_lem :
    (c : TokenClaims)
    → Unreserved c.extra
    → to_payload c ≡ append (start c.subject c.tenant_id) c.extra
unfolding to_payload
payload_lem c u =
    update-append (start c.subject c.tenant_id) c.extra u.distinct
      (Apart-start c.subject c.tenant_id c.extra u.no_sub u.no_tenant)

read_start :
    (py : Conversions) (sub : String) (tid : Option ℤ) (extra : Fields)
    → Unreserved extra
    → from_payload py (append (start sub tid) extra)
      ≡ ok (record {
        subject = sub;
        tenant_id = tid;
        issued_at = none;
        expires_at = none;
        extra = extra;
      })
unfolding from_payload append get_field drop_field coerce_int coerce_datetime str_of int_of
read_start py sub none extra u = ground (
  arith,
  u.no_sub,
  u.no_tenant,
  u.no_iat,
  u.no_exp,
  drop_field-absent extra "sub",
  drop_field-absent extra "tenant_id",
  drop_field-absent extra "iat",
  drop_field-absent extra "exp",
)
read_start py sub (some n) extra u = ground (
  arith,
  u.no_sub,
  u.no_tenant,
  u.no_iat,
  u.no_exp,
  drop_field-absent extra "sub",
  drop_field-absent extra "tenant_id",
  drop_field-absent extra "iat",
  drop_field-absent extra "exp",
)

-- Claims whose further fields have distinct names, none of them "sub", "tenant_id", "iat" or "exp",
-- are read back from their payload, apart from the two moments, which the payload does not carry.
pub from_payload-to_payload :
    (py : Conversions) (c : TokenClaims)
    → Unreserved c.extra
    → from_payload py (to_payload c) ≡ ok (record c { issued_at = none; expires_at = none })
from_payload-to_payload py c u =
    ap (from_payload py) (payload_lem c u) ∙ read_start py c.subject c.tenant_id c.extra u
