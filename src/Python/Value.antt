-- ===== src/Python/Value.antt =====
-- The dynamic values that the cache, the JSON columns and the token payloads hold. A list of texts,
-- as the cache keeps for sessions and permissions, is `texts`; the cache keeps `User` objects whole.
-- A `moment` is a `datetime` in seconds.
use clean_architecture_saas.Prelude.{
  ℕ, zero, suc, String, Bool, true, false, not, Option, none, some, List, [], ◌∷◌, ◌==◌,
  if◌then◌else◌,
}
use clean_architecture_saas.Python.Int.{ℤ, pos, negsuc}
use clean_architecture_saas.Domain.User.{User}

mutual
  pub data Value : Type 0 where
    nul : Value
    flag : Bool → Value
    num : ℤ → Value
    text : String → Value
    list : Values → Value
    texts : List String → Value
    dict : Fields → Value
    user : User → Value
    users : List User → Value
    moment : ℕ → Value

  pub data Values : Type 0 where
    nil : Values
    cons : Value → Values → Values

  pub data Fields : Type 0 where
    end : Fields
    field : String → Value → Fields → Fields

-- `bool(v)`
abbrev pub truthy : Value → Bool
truthy nul = false
truthy (flag b) = b
truthy (num (pos zero)) = false
truthy (num (pos (suc n))) = true
truthy (num (negsuc n)) = true
truthy (text s) = not (s == "")
truthy (list nil) = false
truthy (list (cons v vs)) = true
truthy (texts []) = false
truthy (texts (s ∷ ss)) = true
truthy (dict end) = false
truthy (dict (field k v fs)) = true
truthy (user u) = true
truthy (users []) = false
truthy (users (u ∷ us)) = true
truthy (moment t) = true

-- `d.get(k)` on a dictionary of values
unfoldable pub get_field : Fields → String → Option Value
get_field end k = none
get_field (field j v fs) k = if j == k then some v else get_field fs k

-- `d[k] = v`
unfoldable pub set_field : Fields → String → Value → Fields
set_field end k v = field k v end
set_field (field j w fs) k v = if j == k then field k v fs else field j w (set_field fs k v)

-- `d.pop(k, None)`, the dictionary that is left
unfoldable pub drop_field : Fields → String → Fields
drop_field end k = end
drop_field (field j w fs) k = let rest = drop_field fs k in if j == k then rest else field j w rest

-- `d.setdefault(k, v)`
unfoldable pub default_field : Fields → String → Value → Fields
unfolding get_field set_field
default_field fs k v = elim (get_field fs k) [ none ↦ set_field fs k v | some w ↦ fs ]

-- `v or []` and `v or {}` in a field that may be absent
abbrev pub or_nul : Option Value → Value
or_nul none = nul
or_nul (some v) = v
