-- ===== src/Domain/Auth.antt =====
-- domain/auth.py: the claims of a token. A `datetime` is a number of seconds.
pub mod RoundTrip
use clean_architecture_saas.Prelude.{
  ℕ, String, Bool, true, false, Option, none, some, if◌then◌else◌,
}
use clean_architecture_saas.Python.Exec.{failure, Result, ok, raised}
use clean_architecture_saas.Python.Int.{ℤ, pos}
use clean_architecture_saas.Python.Text.{str_int}
use clean_architecture_saas.Python.Value.{
  Value, nul, flag, num, text, list, texts, dict, user, users, moment, Fields, end, field,
  get_field, set_field, drop_field, or_nul,
}
use clean_architecture_saas.Cache.InMemory.{int_of}

pub record TokenClaims : Type 0 where
  pub subject : String
  pub tenant_id : Option ℤ
  pub issued_at : Option ℕ
  pub expires_at : Option ℕ
  pub extra : Fields

-- `payload.update(extra)`
unfoldable pub update_fields : Fields → Fields → Fields
unfolding set_field
update_fields payload end = payload
update_fields payload (field k v fs) = update_fields (set_field payload k v) fs

abbrev pub start : String → Option ℤ → Fields
start sub none = field "sub" (text sub) end
start sub (some n) = field "sub" (text sub) (field "tenant_id" (num n) end)

unfoldable pub to_payload : TokenClaims → Fields
unfolding update_fields
to_payload c = update_fields (start c.subject c.tenant_id) c.extra

abbrev or_field : Fields → String → Option ℕ → Fields
or_field d k none = d
or_field d k (some t) = set_field d k (num (pos t))

unfoldable pub to_dict : TokenClaims → Fields
unfolding to_payload set_field
to_dict c = or_field (or_field (to_payload c) "iat" c.issued_at) "exp" c.expires_at

-- What is read of Python's own conversions: `datetime.fromtimestamp(float(v))` and
-- `datetime.fromisoformat(s)`, with `none` for what they raise, and `str` of a list or a dictionary.
pub record Conversions : Type 0 where
  pub fromtimestamp : Value → Option ℕ
  pub fromisoformat : String → Option ℕ
  pub repr : Value → String

module _ (py : Conversions) where
  -- `str(v)`
  unfoldable pub str_of : Value → String
  unfolding str_int
  str_of (text s) = s
  str_of (num n) = str_int n
  str_of (flag b) = if b then "True" else "False"
  str_of nul = "None"
  str_of (list vs) = py.repr (list vs)
  str_of (texts ss) = py.repr (texts ss)
  str_of (dict fs) = py.repr (dict fs)
  str_of (user u) = py.repr (user u)
  str_of (users us) = py.repr (users us)
  str_of (moment t) = py.repr (moment t)

  abbrev or_iso : Value → Option ℕ → Option ℕ
  or_iso v (some t) = some t
  or_iso v none = py.fromisoformat (str_of v)

  unfoldable pub coerce_datetime : Value → Option ℕ
  unfolding str_of
  coerce_datetime nul = none
  coerce_datetime (moment t) = some t
  coerce_datetime v = or_iso v (py.fromtimestamp v)

  unfoldable pub coerce_int : Value → Option ℤ
  unfolding int_of
  coerce_int v = int_of v

  abbrev pub with_subject : Fields → Option Value → Result TokenClaims
  with_subject d none = raised (failure "no sub")
  with_subject d (some sub) =
      let rest = drop_field d "sub" in
      let rest_tenant = drop_field rest "tenant_id" in
      let rest_iat = drop_field rest_tenant "iat" in
      ok (record {
        subject = str_of sub;
        tenant_id = coerce_int (or_nul (get_field rest "tenant_id"));
        issued_at = coerce_datetime (or_nul (get_field rest_tenant "iat"));
        expires_at = coerce_datetime (or_nul (get_field rest_iat "exp"));
        extra = drop_field rest_iat "exp";
      })

  unfoldable pub from_payload : Fields → Result TokenClaims
  unfolding coerce_datetime coerce_int str_of get_field drop_field
  from_payload d = with_subject d (get_field d "sub")
