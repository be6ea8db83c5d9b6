-- ===== src/Tokens/Payload.antt =====
-- What a token carries comes back when it is consumed in time.
use clean_architecture_saas.Prelude.{
  ℕ, ◌≤◌, ◌<◌, String, ◌≡◌, refl, ap, ◌∙◌, true, false, Option, none, some, arith, ◌==◌, eq_iff,
  if◌then◌else◌,
}
use clean_architecture_saas.Python.Exec.{ok}
use clean_architecture_saas.Python.Int.{pos}
use clean_architecture_saas.Python.Value.{
  Value, num, text, dict, Fields, end, field, get_field, set_field, truthy,
}
use clean_architecture_saas.Python.Fields.{get_field-set_field, IsDistinct, IsDistinct-set_field}
use clean_architecture_saas.Cache.InMemory.{Mem, int_of, set, tick, in_memory}
use clean_architecture_saas.Cache.InMemory.Laws.{view-tick-set}
use clean_architecture_saas.Cache.Keys.{email_token}
use clean_architecture_saas.Tokens.OneTime.{consume_lem}
use clean_architecture_saas.Tokens.EmailTokens.{
  TokenData, payload_of, add_fields, extra_fields, token_data, create_token, consume_token,
  is_reserved, write_field,
}

-- Reading `k` after the writes of a sequence of fields, where it held `o` before.
final : Fields → String → Option Value → Option Value
final end k o = o
final (field j v fs) k o = final fs k (if j == k then some v else o)

or_else : Option Value → Option Value → Option Value
or_else none o = o
or_else (some v) o = some v

or_else-none : (o : Option Value) → or_else o none ≡ o
unfolding or_else
or_else-none none = refl
or_else-none (some v) = refl

final-get_field :
    (fs : Fields) (k : String) (o : Option Value)
    → IsDistinct fs
    → final fs k o ≡ or_else (get_field fs k) o
unfolding final get_field or_else
final-get_field end k o h = refl
final-get_field (field j v fs) k o (n, h) =
    ground (arith, eq_iff j k, final-get_field fs k (if j == k then some v else o) h)

reserved_same : (j k : String) → (j == k) ≡ true → is_reserved j ≡ is_reserved k
reserved_same j k e = ap is_reserved ((eq_iff j k).0 e)

get_field-add_fields :
    (fs p : Fields) (k : String)
    → get_field (add_fields fs p) k
      ≡ (if is_reserved k then get_field p k else final fs k (get_field p k))
unfolding add_fields final
get_field-add_fields end p k = ground arith
get_field-add_fields (field j v fs) p k = ground (
  arith,
  eq_iff j k,
  get_field-add_fields fs p k,
  get_field-add_fields fs (set_field p j v) k,
  get_field-set_field p j k v,
  reserved_same j k,
)

IsDistinct-add_fields : (fs p : Fields) → IsDistinct p → IsDistinct (add_fields fs p)
unfolding add_fields
IsDistinct-add_fields end p h = h
IsDistinct-add_fields (field j v fs) p h = ground (
  arith,
  IsDistinct-add_fields fs p h,
  IsDistinct-add_fields fs (set_field p j v) (IsDistinct-set_field p j v h),
)

-- A dictionary that may be absent, read at a key.
abbrev pub entry : Option Fields → String → Option Value
entry none k = none
entry (some fs) k = get_field fs k

entry-write_field :
    (acc : Option Fields) (j k : String) (v : Value)
    → entry (some (write_field acc j v)) k ≡ (if j == k then some v else entry acc k)
unfolding get_field
entry-write_field none j k v = get_field-set_field end j k v
entry-write_field (some d) j k v = get_field-set_field d j k v

entry-extra_fields :
    (fs : Fields) (acc : Option Fields) (k : String)
    → is_reserved k ≡ false
    → entry (extra_fields fs acc) k ≡ final fs k (entry acc k)
unfolding extra_fields final
entry-extra_fields end acc k h = refl
entry-extra_fields (field j v fs) acc k h = ground (
  arith,
  entry-extra_fields fs acc k h,
  entry-extra_fields fs (some (write_field acc j v)) k h,
  entry-write_field acc j k v,
  reserved_same j k,
)

start_field : ℕ → String → Fields
start_field uid purpose = field "user_id" (num (pos uid)) (field "purpose" (text purpose) end)

abbrev pub HasDistinctKeys : Option Fields → Type 0
HasDistinctKeys none = Unit
HasDistinctKeys (some fs) = IsDistinct fs

reserved_user_id : is_reserved "user_id" ≡ true
unfolding is_reserved
reserved_user_id = refl

reserved_purpose : is_reserved "purpose" ≡ true
unfolding is_reserved
reserved_purpose = refl

truthy-dict :
    (fs : Fields) (k : String) (v : Value) → get_field fs k ≡ some v → truthy (dict fs) ≡ true
unfolding get_field
truthy-dict end k v e = cc
truthy-dict (field j w fs) k v e = refl

module _ (uid : ℕ) (purpose : String) where
  start_user_id : get_field (start_field uid purpose) "user_id" ≡ some (num (pos uid))
  unfolding start_field get_field
  start_user_id = refl

  start_purpose : get_field (start_field uid purpose) "purpose" ≡ some (text purpose)
  unfolding start_field get_field
  start_purpose = refl

  payload_reserved :
      (o : Option Fields) (k : String)
      → is_reserved k ≡ true
      → get_field (payload_of uid purpose o) k ≡ get_field (start_field uid purpose) k
  unfolding payload_of start_field
  payload_reserved none k h = refl
  payload_reserved (some fs) k h = get_field-add_fields fs _ k ∙ (rw h)

  start_other : (k : String) → is_reserved k ≡ false → get_field (start_field uid purpose) k ≡ none
  unfolding start_field get_field is_reserved
  start_other k h =
      ground (arith, eq_iff k "user_id", eq_iff "user_id" k, eq_iff k "purpose", eq_iff "purpose" k)

  IsDistinct-start : IsDistinct (start_field uid purpose)
  unfolding start_field get_field
  IsDistinct-start = (refl, (refl, tt))

  payload_other :
      (o : Option Fields) (k : String)
      → is_reserved k ≡ false
      → HasDistinctKeys o
      → get_field (payload_of uid purpose o) k ≡ entry o k
  unfolding payload_of start_field
  payload_other none k h d = start_other k h
  payload_other (some fs) k h d =
      get_field-add_fields fs (start_field uid purpose) k
      ∙ ground (arith, start_other k h, final-get_field fs k none d, or_else-none (get_field fs k))

  IsDistinct-payload :
      (o : Option Fields) → HasDistinctKeys o → IsDistinct (payload_of uid purpose o)
  unfolding payload_of start_field
  IsDistinct-payload none d = IsDistinct-start
  IsDistinct-payload (some fs) d =
      IsDistinct-add_fields fs (start_field uid purpose) IsDistinct-start

  extra_lem :
      (o : Option Fields) (k : String)
      → is_reserved k ≡ false
      → HasDistinctKeys o
      → entry (extra_fields (payload_of uid purpose o) none) k ≡ entry o k
  extra_lem o k h d = ground (
    arith,
    entry-extra_fields (payload_of uid purpose o) none k h,
    final-get_field (payload_of uid purpose o) k none (IsDistinct-payload o d),
    or_else-none (get_field (payload_of uid purpose o) k),
    payload_other o k h d,
  )

  -- The token that `create_token` builds, as `consume_token` reads it.
  abbrev pub built : Option Fields → TokenData
  built o = record {
    user_id = pos uid;
    purpose = some (text purpose);
    extra = extra_fields (payload_of uid purpose o) none;
  }

  read_back : (o : Option Fields) → token_data (dict (payload_of uid purpose o)) ≡ some (built o)
  unfolding token_data int_of
  read_back o = ground (
    arith,
    payload_reserved o "user_id" reserved_user_id,
    start_user_id,
    payload_reserved o "purpose" reserved_purpose,
    start_purpose,
  )

  truthy-payload : (o : Option Fields) → truthy (dict (payload_of uid purpose o)) ≡ true
  truthy-payload o =
      truthy-dict (payload_of uid purpose o) "user_id" (num (pos uid))
        (payload_reserved o "user_id" reserved_user_id ∙ start_user_id)

-- Over the cache in memory, a token that was created with data of distinct keys is consumed within
-- its lifetime as its user, its purpose and, at each key but "user_id" and "purpose", its data.
pub consume-create :
    (uid : ℕ) (token purpose : String) (o : Option Fields) (ttl n : ℕ) (m : Mem) (k : String)
    → HasDistinctKeys o
    → is_reserved k ≡ false
    → n < ttl
    → (d : TokenData) × ((consume_token in_memory token
          (tick n (create_token in_memory uid token purpose o ttl m).1)).0
        ≡ ok (some d))
      × (d.user_id ≡ pos uid)
      × (d.purpose ≡ some (text purpose))
      × (entry d.extra k ≡ entry o k)
unfolding create_token
consume-create uid token purpose o ttl n m k d h lt = (
  built uid purpose o,
  ground (
    arith,
    consume_lem token
        (tick n (set (email_token token) (dict (payload_of uid purpose o)) (some ttl) m).1),
    view-tick-set (email_token token) (dict (payload_of uid purpose o)) ttl n m,
    truthy-payload uid purpose o,
    read_back uid purpose o,
  ),
  refl,
  refl,
  extra_lem uid purpose o k h d,
)

-- Over the cache in memory, a token that was created is refused once its lifetime is over.
consume_expired :
    (uid : ℕ) (token purpose : String) (o : Option Fields) (ttl n : ℕ) (m : Mem)
    → ttl ≤ n
    → (consume_token in_memory token
        (tick n (create_token in_memory uid token purpose o ttl m).1)).0
      ≡ ok none
unfolding create_token
consume_expired uid token purpose o ttl n m le = ground (
  arith,
  consume_lem token
      (tick n (set (email_token token) (dict (payload_of uid purpose o)) (some ttl) m).1),
  view-tick-set (email_token token) (dict (payload_of uid purpose o)) ttl n m,
)
