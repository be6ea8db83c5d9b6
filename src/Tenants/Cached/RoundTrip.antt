-- ===== src/Tenants/Cached/RoundTrip.antt =====
-- A cached tenant is read back once, and its dictionary is left so that it can not be read again.
use clean_architecture_saas.Prelude.{
  ℕ, String, ◌≡◌, refl, sym, ap, subst, false, Option, none, some, arith, ◌==◌,
}
use clean_architecture_saas.Python.Exec.{failure, ok, raised}
use clean_architecture_saas.Python.Value.{
  Value, text, dict, moment, Fields, end, field, get_field, set_field,
}
use clean_architecture_saas.Domain.Tenant.{Tenant, post_init}
use clean_architecture_saas.Tenants.Cached.{
  Formats, text_or_nul, id_or_nul, as_id, as_optional, tenant_fields, with_moment, tenant_of,
  read_dict, deserialize_tenant, only_fields,
}

-- What is documented of `isoformat`: its text is not empty and is read back.
pub record Iso (formats : Formats) : Type 0 where
  pub reads_back : (t : ℕ) → formats.fromisoformat (formats.isoformat t) ≡ some t
  pub not_empty : (t : ℕ) → (formats.isoformat t == "") ≡ false

as_id-id_or_nul : (o : Option ℕ) → as_id (id_or_nul o) ≡ ok o
as_id-id_or_nul none = refl
as_id-id_or_nul (some n) = refl

as_optional-text_or_nul : (o : Option String) → as_optional (text_or_nul o) ≡ ok o
as_optional-text_or_nul none = refl
as_optional-text_or_nul (some s) = refl

-- The dictionary with its two moments in place of their texts.
abbrev dated : Tenant → Value → Value → Fields
dated t v w = field "id" (id_or_nul t.id) (
    field "name" (text t.name) (
      field "slug" (text_or_nul t.slug) (
        field "domain" (text_or_nul t.domain) (
          field "plan" (text t.plan) (
            field "status" (text t.status)
              (field "settings" t.settings (field "created_at" v (field "updated_at" w end))))))))

-- A tenant whose timestamps and settings are set.
pub record Stamped (t : Tenant) : Type 0 where
  pub created : ℕ
  pub updated : ℕ
  pub created_lem : t.created_at ≡ some created
  pub updated_lem : t.updated_at ≡ some updated
  pub settled : (now : ℕ) → post_init now t ≡ t

-- The dictionary of a cached tenant after it was read.
abbrev pub left_fields : (t : Tenant) → Stamped t → Fields
left_fields t h = dated t (moment h.created) (moment h.updated)

module _ (formats : Formats) (iso : Iso formats) where
  first_moment :
      (t : Tenant) (a : ℕ) (w : Value)
      → with_moment formats "created_at" (dated t (text (formats.isoformat a)) w)
        ≡ ok (dated t (moment a) w)
  unfolding get_field set_field
  first_moment t a w = rw (iso.not_empty a) (rw (iso.reads_back a) refl)

  second_moment :
      (t : Tenant) (v : Value) (b : ℕ)
      → with_moment formats "updated_at" (dated t v (text (formats.isoformat b)))
        ≡ ok (dated t v (moment b))
  unfolding get_field set_field
  second_moment t v b = rw (iso.not_empty b) (rw (iso.reads_back b) refl)

  made :
      (now : ℕ) (t : Tenant) (a b : ℕ)
      → tenant_of now (dated t (moment a) (moment b))
        ≡ ok (post_init now (record t { created_at = some a; updated_at = some b }))
  unfolding tenant_of get_field only_fields
  made now t a b =
      rw (as_id-id_or_nul t.id)
        (rw (as_optional-text_or_nul t.slug) (rw (as_optional-text_or_nul t.domain) refl))

  dict_read :
      (now : ℕ) (t : Tenant) (a b : ℕ)
      → read_dict formats now (dated t (text (formats.isoformat a)) (text (formats.isoformat b)))
        ≡ (
          ok (some (post_init now (record t { created_at = some a; updated_at = some b }))),
          dated t (moment a) (moment b),
        )
  unfolding read_dict
  dict_read now t a b = ground (
    arith,
    first_moment t a (text (formats.isoformat b)),
    second_moment t (moment a) b,
    made now t a b,
  )

  pub read_once :
      (now : ℕ) (t : Tenant) (h : Stamped t)
      → deserialize_tenant formats now (dict (tenant_fields formats t))
        ≡ (ok (some t), dict (left_fields t h))
  unfolding deserialize_tenant
  read_once now t h =
      ground
        (arith, h.created_lem, h.updated_lem, dict_read now t h.created h.updated, h.settled now)

  pub read_again :
      (now : ℕ) (t : Tenant) (h : Stamped t)
      → deserialize_tenant formats now (dict (left_fields t h))
        ≡ (raised (failure "argument must be str"), dict (left_fields t h))
  unfolding deserialize_tenant read_dict get_field
  read_again now t h = refl

  -- A cached tenant is read back as it was; but the read leaves its dictionary with moments in place
  -- of their texts, and no later read of that dictionary succeeds.
  pub reads_spoil :
      (now later : ℕ) (t : Tenant)
      → Stamped t
      → let (r, v) = deserialize_tenant formats now (dict (tenant_fields formats t)) in
        (r ≡ ok (some t))
        × (deserialize_tenant formats later v ≡ (raised (failure "argument must be str"), v))
  reads_spoil now later t h =
      let once = read_once now t h in
      (
        ap (λ p. p.0) once,
        subst
            (λ v. deserialize_tenant formats later v ≡ (raised (failure "argument must be str"), v))
            (sym (ap (λ p. p.1) once)) (read_again later t h),
      )
