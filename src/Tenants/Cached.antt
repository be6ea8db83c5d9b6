-- ===== src/Tenants/Cached.antt =====
-- infrastructure/repositories/caching/base.py: tenants as the dictionaries that the cache keeps, and
-- the reading of these. The constructor of `Tenant` takes any value for a field; here one of another
-- type than the class declares raises, as its first use would.
pub mod RoundTrip
use clean_architecture_saas.Prelude.{
  ℕ, String, Bool, true, false, ◌&&◌, ◌||◌, Option, none, some, ◌==◌, if◌then◌else◌,
}
use clean_architecture_saas.Python.Exec.{failure, Result, ok, raised, bind}
use clean_architecture_saas.Python.Int.{ℤ, pos, negsuc}
use clean_architecture_saas.Python.Value.{
  Value, nul, num, text, list, dict, moment, truthy, Values, nil, cons, Fields, end, field,
  get_field, set_field, or_nul,
}
use clean_architecture_saas.Domain.Tenant.{Tenant, post_init}

-- `datetime` and `json`: a moment as text and back, and a JSON text as a value, if it is one.
pub record Formats : Type 0 where
  pub isoformat : ℕ → String
  pub fromisoformat : String → Option ℕ
  pub loads : String → Option Value

abbrev pub text_or_nul : Option String → Value
text_or_nul none = nul
text_or_nul (some s) = text s

abbrev pub id_or_nul : Option ℕ → Value
id_or_nul none = nul
id_or_nul (some n) = num (pos n)

abbrev wrong : {A : Type 0} → Result A
wrong = raised (failure "unexpected type")

abbrev required : Option Value → Result Value
required none = raised (failure "missing argument")
required (some v) = ok v

abbrev pub as_id : Value → Result (Option ℕ)
as_id v = elim v [
  | nul ↦ ok none
  | num n ↦ elim n [ pos k ↦ ok (some k) | negsuc k ↦ wrong ]
  | _ ↦ wrong
]

abbrev as_text : Value → Result String
as_text v = elim v [ text s ↦ ok s | _ ↦ wrong ]

abbrev pub as_optional : Value → Result (Option String)
as_optional v = elim v [ nul ↦ ok none | text s ↦ ok (some s) | _ ↦ wrong ]

abbrev as_moment : Value → Result (Option ℕ)
as_moment v = elim v [ nul ↦ ok none | moment t ↦ ok (some t) | _ ↦ wrong ]

-- A field that has a default.
abbrev given : Option Value → Value → Value
given none v = v
given (some w) v = w

abbrev is_field : String → Bool
is_field k =
    k == "id"
    || k == "name"
    || k == "slug"
    || k == "domain"
    || k == "plan"
    || k == "status"
    || k == "settings"
    || k == "created_at"
    || k == "updated_at"

-- Any other keyword is refused.
unfoldable pub only_fields : Fields → Bool
only_fields end = true
only_fields (field k v fs) = is_field k && only_fields fs

module _ (formats : Formats) where
  abbrev pub iso_or_nul : Option ℕ → Value
  iso_or_nul none = nul
  iso_or_nul (some t) = text (formats.isoformat t)

  -- The dictionary that the repository caches.
  abbrev pub tenant_fields : Tenant → Fields
  tenant_fields t = field "id" (id_or_nul t.id) (
      field "name" (text t.name) (
        field "slug" (text_or_nul t.slug) (
          field "domain" (text_or_nul t.domain) (
            field "plan" (text t.plan) (
              field "status" (text t.status) (
                field "settings" t.settings (
                  field "created_at" (iso_or_nul t.created_at)
                    (field "updated_at" (iso_or_nul t.updated_at) end))))))))

  abbrev parsed : Option ℕ → Result Value
  parsed none = raised (failure "Invalid isoformat string")
  parsed (some t) = ok (moment t)

  -- `datetime.fromisoformat` takes texts only.
  abbrev pub moment_of : Value → Result Value
  moment_of v = elim v [
    | text s ↦ parsed (formats.fromisoformat s)
    | _ ↦ raised (failure "argument must be str")
  ]

  -- `if s.get(k): s[k] = datetime.fromisoformat(s[k])`
  abbrev pub with_moment : String → Fields → Result Fields
  with_moment k fs =
      let v = or_nul (get_field fs k) in
      if truthy v then bind (moment_of v) (λ m. ok (set_field fs k m)) else ok fs

module _ (now : ℕ) where
  -- `DomainTenant(**s)`
  unfoldable pub tenant_of : Fields → Result Tenant
  unfolding get_field only_fields post_init
  tenant_of fs =
      if only_fields fs
      then bind (required (get_field fs "id")) (λ i. bind (as_id i) (λ id.
        bind (required (get_field fs "name")) (λ n. bind (as_text n) (λ name.
          bind (as_optional (or_nul (get_field fs "slug"))) (λ slug.
            bind (as_optional (or_nul (get_field fs "domain"))) (λ domain.
              bind (as_text (given (get_field fs "plan") (text "free"))) (λ plan.
                bind (as_text (given (get_field fs "status") (text "active"))) (λ status.
                  bind (as_moment (or_nul (get_field fs "created_at"))) (λ created.
                    bind (as_moment (or_nul (get_field fs "updated_at"))) (λ updated. ok (
                      post_init now (record {
                        id = id;
                        name = name;
                        slug = slug;
                        domain = domain;
                        plan = plan;
                        status = status;
                        settings = or_nul (get_field fs "settings");
                        created_at = created;
                        updated_at = updated;
                      }))))))))))))
      else raised (failure "unexpected keyword argument")

module _ (formats : Formats) (now : ℕ) where
  -- What comes out, and the dictionary as it is left.
  abbrev pub with_updated : Fields → Result (Option Tenant) × Fields
  with_updated gs = elim (with_moment formats "updated_at" gs) [
    | raised e ↦ (raised e, gs)
    | ok hs ↦ (bind (tenant_of now hs) (λ t. ok (some t)), hs)
  ]

  unfoldable pub read_dict : Fields → Result (Option Tenant) × Fields
  unfolding get_field set_field tenant_of
  read_dict fs = elim (with_moment formats "created_at" fs) [
    | raised e ↦ (raised e, fs)
    | ok gs ↦ with_updated gs
  ]

  abbrev from_json : Option Value → Result (Option Tenant)
  from_json none = ok none
  from_json (some v) = elim v [
    | dict fs ↦ (read_dict fs).0
    | _ ↦ raised (failure "no attribute get")
  ]

  -- The tenant in a cached value, and the value as it is left: a dictionary has its texts replaced by
  -- moments. The cache holds no `Tenant` objects.
  unfoldable pub deserialize_tenant : Value → Result (Option Tenant) × Value
  unfolding read_dict
  deserialize_tenant v = elim v [
    | dict fs ↦ let (r, gs) = read_dict fs in (r, dict gs)
    | text s ↦ (from_json (formats.loads s), text s)
    | w ↦ (ok none, w)
  ]
