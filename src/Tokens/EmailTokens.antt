-- ===== src/Tokens/EmailTokens.antt =====
-- infrastructure/repositories/email_token_cache_repository.py, over any cache client. The handlers
-- only log, so they return at once.
use clean_architecture_saas.Prelude.{ℕ, String, Bool, ◌||◌, Option, none, some, ◌==◌, if◌then◌else◌}
use clean_architecture_saas.Python.Exec.{failure, Exec, pure, raise, attempt, ◌>>=◌, ◌>>◌}
use clean_architecture_saas.Python.Int.{ℤ, pos}
use clean_architecture_saas.Python.Value.{
  Value, num, text, dict, truthy, Fields, end, field, get_field, set_field,
}
use clean_architecture_saas.Cache.Client.{CacheClient}
use clean_architecture_saas.Cache.InMemory.{int_of}
use clean_architecture_saas.Cache.Keys.{email_token}

-- The dictionary that `consume_token` returns; "created_at" is always `None`. `extra` is the entry
-- "data", which is there only when the token carries further fields.
pub record TokenData : Type 0 where
  pub user_id : ℤ
  pub purpose : Option Value
  pub extra : Option Fields

unfoldable pub is_reserved : String → Bool
is_reserved k = k == "user_id" || k == "purpose"

-- The loop over `data.items()` that fills the payload.
unfoldable pub add_fields : Fields → Fields → Fields
add_fields end payload = payload
add_fields (field k v fs) payload =
    add_fields fs (if is_reserved k then payload else set_field payload k v)

unfoldable pub payload_of : ℕ → String → Option Fields → Fields
unfolding add_fields set_field is_reserved
payload_of uid purpose data_fields =
    let start : Fields = field "user_id" (num (pos uid)) (field "purpose" (text purpose) end) in
    elim data_fields [ none ↦ start | some fs ↦ add_fields fs start ]

-- `result.setdefault("data", {})[k] = v`
abbrev pub write_field : Option Fields → String → Value → Fields
write_field none k v = set_field end k v
write_field (some d) k v = set_field d k v

-- The loop over `val.items()` that collects the entry "data".
unfoldable pub extra_fields : Fields → Option Fields → Option Fields
extra_fields end acc = acc
extra_fields (field k v fs) acc =
    extra_fields fs (if is_reserved k then acc else some (write_field acc k v))

-- `int(val["user_id"])`: a missing or unreadable id raises.
abbrev read_id : Option Value → Option ℤ
read_id none = none
read_id (some v) = int_of v

-- What is read from the cached value; only a dictionary can be read.
unfoldable pub token_data : Value → Option TokenData
unfolding extra_fields int_of get_field set_field is_reserved
token_data (dict fs) = elim (read_id (get_field fs "user_id")) [
  | none ↦ none
  | some uid ↦
      some
        (record { user_id = uid; purpose = get_field fs "purpose"; extra = extra_fields fs none })
]
token_data v = none

abbrev or_failure : {S A : Type 0} → Option A → Exec S (Option A)
or_failure none = raise (failure "unreadable token")
or_failure (some a) = pure (some a)

module _ {S : Type 0} (cache : CacheClient S) where
  open cache use {get, set, delete}

  unfoldable pub create_token : ℕ → String → String → Option Fields → ℕ → Exec S (Unit {0})
  unfolding payload_of
  create_token uid token purpose data_fields ttl =
      attempt (set (email_token token) (dict (payload_of uid purpose data_fields)) (some ttl))
        (λ e. pure tt)

  -- The token is deleted before it is read.
  unfoldable pub consume_token : String → Exec S (Option TokenData)
  unfolding token_data
  consume_token token =
      attempt
        (do
          val ← get (email_token token)
          elim val [
            | none ↦ pure none
            | some v ↦
                if truthy v
                then (do delete (email_token token); or_failure (token_data v))
                else pure none
          ])
        (λ e. pure none)
