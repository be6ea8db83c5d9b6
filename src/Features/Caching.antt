-- ===== src/Features/Caching.antt =====
-- infrastructure/repositories/caching/feature_flag_caching.py, around any repository of flags. The
-- handlers only log. A list of flags is the value that the cache keeps of it.
pub mod Pages
use clean_architecture_saas.Prelude.{ℕ, String, Option, none, some, List, [], ◌∷◌}
use clean_architecture_saas.Python.Exec.{Exec, pure, attempt, ◌>>=◌, ◌>>◌}
use clean_architecture_saas.Python.Text.{show}
use clean_architecture_saas.Python.Value.{
  Value, dict, list, Values, nil, cons, Fields, get_field, or_nul,
}
use clean_architecture_saas.Domain.Auth.{Conversions, str_of}
use clean_architecture_saas.Cache.Client.{CacheClient}
use clean_architecture_saas.Cache.Keys.{◌&◌}
use clean_architecture_saas.Features.{FeatureFlagRepository, cached_flag, flag_key, id_text}

abbrev pub id_key : ℕ → String
id_key id = "feature:id:" & show id

abbrev pub list_key : String → String
list_key tenant = "feature:list:" & tenant

abbrev pub flags : List Fields → Values
flags [] = nil
flags (fs ∷ rows) = cons (dict fs) (flags rows)

abbrev pub best_effort : {S : Type 0} → Exec S (Unit {0}) → Exec S (Unit {0})
best_effort m = attempt m (λ e. pure tt)

module _ {S : Type 0} (py : Conversions) (inner : FeatureFlagRepository S)
    (cache : Option (CacheClient S)) (ttl : ℕ) where
  abbrev pub on_cache : (CacheClient S → Exec S (Unit {0})) → Exec S (Unit {0})
  on_cache f = elim cache [ none ↦ pure tt | some c ↦ best_effort (f c) ]

  -- The named arguments besides the tenant are fields, the key also on its own.
  unfoldable pub create : Option ℕ → String → Fields → Exec S Fields
  create tid key fields = do
    result ← inner.create tid fields
    on_cache λ c. (do
      c.delete (flag_key (id_text tid) key)
      best_effort (c.delete (list_key (id_text tid))))
    pure result

  abbrev looked_up : CacheClient S → String → Exec S (Option Value)
  looked_up c key = attempt (c.get key) (λ e. pure none)

  abbrev from_inner : Option ℕ → String → Option Fields → Exec S (Option Fields)
  from_inner tid key (some fs) = pure (some fs)
  from_inner tid key none = inner.get_by_key tid key

  unfoldable pub get_by_key : Option ℕ → String → Exec S (Option Fields)
  get_by_key tid key = elim cache [
    | none ↦ inner.get_by_key tid key
    | some c ↦ do
      val ← looked_up c (flag_key (id_text tid) key)
      from_inner tid key (cached_flag val)
  ]

  unfoldable pub get_by_id : ℕ → Exec S (Option Fields)
  get_by_id id = inner.get_by_id id

  -- `f"{feat.get(k)}"`
  abbrev part : Fields → String → String
  part fs k = str_of py (or_nul (get_field fs k))

  -- The entries of a flag whose tenant and key are known.
  abbrev pub drop_flag : CacheClient S → Option Fields → Exec S (Unit {0})
  drop_flag c none = pure tt
  drop_flag c (some fs) = do
    c.delete (flag_key (part fs "tenant_id") (part fs "key"))
    best_effort (c.delete (list_key (part fs "tenant_id")))

  unfoldable pub update : ℕ → Fields → Exec S Fields
  unfolding str_of get_field
  update id fields = do
    result ← inner.update id fields
    on_cache
        λ c. (do c.delete (id_key id); best_effort (do feat ← inner.get_by_id id; drop_flag c feat))
    pure result

  unfoldable pub delete : ℕ → Exec S (Unit {0})
  unfolding str_of get_field
  delete id = do
    existing ← attempt (inner.get_by_id id) (λ e. pure none)
    inner.delete id
    on_cache λ c. (do c.delete (id_key id); drop_flag c existing)

  unfoldable pub list_flags : Option ℕ → ℕ → ℕ → Exec S (List Fields)
  list_flags tid limit offset = inner.list tid limit offset

  abbrev pub missed_list : CacheClient S → Option ℕ → ℕ → ℕ → Option Value → Exec S Value
  missed_list c tid limit offset (some v) = pure v
  missed_list c tid limit offset none = do
    rows ← inner.list tid limit offset
    best_effort (c.set (list_key (id_text tid)) (list (flags rows)) (some ttl))
    pure (list (flags rows))

  -- The key has the tenant only.
  unfoldable pub list_all : Option ℕ → ℕ → ℕ → Exec S Value
  list_all tid limit offset = elim cache [
    | none ↦ do rows ← inner.list tid limit offset; pure (list (flags rows))
    | some c ↦ do v ← looked_up c (list_key (id_text tid)); missed_list c tid limit offset v
  ]
