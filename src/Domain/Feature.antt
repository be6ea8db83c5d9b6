-- ===== src/Domain/Feature.antt =====
-- domain/feature.py. `hash` of a text is salted for each process, so it is a parameter of what uses
-- it. A condition is built from stored JSON, so its fields may hold any value.
pub mod Rollout
pub mod Outcome
pub mod Stored
use Prim.Native.String
use clean_architecture_saas.Prelude.{
  ℕ, zero, suc, ◌-◌, ◌/◌, ◌%◌, ◌^◌, String, Bool, true, false, not, ◌||◌, Option, none, some, List,
  [], ◌∷◌, ◌==◌, ltb, if◌then◌else◌,
}
use clean_architecture_saas.Python.Exec.{failure, Result, ok, raised, bind}
use clean_architecture_saas.Python.Int.{ℤ, pos, negsuc, ltb_ℤ}
use clean_architecture_saas.Python.Text.{str_int, parse_int}
use clean_architecture_saas.Python.Substring.{contains}
use clean_architecture_saas.Python.Uuid.{parse_uuid}
use clean_architecture_saas.Python.Value.{
  Value, nul, flag, num, text, list, texts, dict, user, users, Values, nil, cons, Fields, end,
  field, get_field, or_nul, truthy,
}
use clean_architecture_saas.Python.Equality.{eq_value, of_texts, number}
use clean_architecture_saas.Cache.InMemory.{int_of}

-- `int | str | uuid.UUID`; a UUID is its number.
pub data UserId : Type 0 where
  int : ℤ → UserId
  str : String → UserId
  uuid : ℕ → UserId

pub record FeatureFlagContext : Type 0 where
  pub user_id : Option UserId
  pub custom : Fields

pub record FeatureFlagCondition : Type 0 where
  pub attribute : Value
  pub operator : Value
  pub value : Value

pub record FeatureFlagRule : Type 0 where
  pub id : Option Value
  pub conditions : List FeatureFlagCondition
  pub value : Value
  pub rollout : ℤ

pub record FeatureFlag : Type 0 where
  pub is_enabled : Bool
  pub enabled_value : Value
  pub default_value : Value
  pub rules : List FeatureFlagRule
  pub percentage : Value

-- `context.custom.get(attribute)`: what cannot be hashed raises, and only a text is a key.
unfoldable pub custom_value : Fields → Value → Result Value
unfolding get_field
custom_value custom (text k) = ok (or_nul (get_field custom k))
custom_value custom nul = ok nul
custom_value custom (flag b) = ok nul
custom_value custom (num n) = ok nul
custom_value custom v = raised (failure "unhashable type")

letters : String → Values
letters String.[] = nil
letters (String.◌∷◌ c s) = cons (text (String.◌∷◌ c String.[])) (letters s)

keys : Fields → Values
keys end = nil
keys (field k v fs) = cons (text k) (keys fs)

-- `list(v)`
unfoldable pub items : Value → Option Values
unfolding letters keys of_texts
items (list vs) = some vs
items (texts ss) = some (of_texts ss)
items (text s) = some (letters s)
items (dict fs) = some (keys fs)
items v = none

unfoldable pub one_of : Value → Values → Bool
unfolding eq_value
one_of v nil = false
one_of v (cons w ws) = eq_value v w || one_of v ws

-- `self.value in val`, for a text `val`
abbrev text_in : Value → Value → Bool
text_in (text s) (text t) = contains s t
text_in v w = false

abbrev in_items : Value → Option Values → Bool
in_items v none = false
in_items v (some ws) = one_of v ws

abbrev by_operator : String → Value → Value → Bool
by_operator operator val value =
    if operator == "equals"
    then eq_value val value
    else if operator == "in"
    then in_items val (items value)
    else if operator == "contains"
    then text_in value val
    else false

abbrev apply_operator : Value → Value → Value → Bool
apply_operator (text o) val value = by_operator o val value
apply_operator v val value = false

-- `FeatureFlagCondition.evaluate`
unfoldable pub evaluate_condition : FeatureFlagCondition → FeatureFlagContext → Result Bool
unfolding custom_value items one_of eq_value contains
evaluate_condition c ctx =
    bind (custom_value ctx.custom c.attribute) λ val. ok (apply_operator c.operator val c.value)

-- `i % 100`
abbrev pub mod_hundred : ℤ → ℕ
mod_hundred (pos n) = n % 100
mod_hundred (negsuc n) = 99 - n % 100

abbrev pub absolute : ℤ → ℕ
absolute (pos n) = n
absolute (negsuc n) = suc n

-- The first four bytes of a UUID, modulo 100
abbrev pub uuid_bucket : ℕ → ℕ
uuid_bucket n = (n / 2 ^ 96) % 100

module _ (hash : String → ℤ) where
  abbrev pub text_bucket : String → Option ℤ → Option ℕ → ℕ
  text_bucket s i (some n) = uuid_bucket n
  text_bucket s (some i) none = mod_hundred i
  text_bucket s none none = absolute (hash s) % 100

  -- The number below 100 that `is_in_rollout` compares with the percentage.
  unfoldable pub bucket : UserId → ℕ
  unfolding parse_uuid parse_int str_int
  bucket (uuid n) = uuid_bucket n
  bucket (int i) = text_bucket (str_int i) (some i) (parse_uuid (str_int i))
  bucket (str s) = text_bucket s (parse_int s) (parse_uuid s)

  unfoldable pub is_in_rollout : Option UserId → ℤ → Bool
  unfolding bucket
  is_in_rollout user_id percentage =
      if not (ltb_ℤ percentage (pos 100))
      then true
      else if not (ltb_ℤ (pos 0) percentage)
      then false
      else elim user_id [ none ↦ false | some u ↦ ltb_ℤ (pos (bucket u)) percentage ]

  -- The loop over the conditions of a rule.
  unfoldable pub all_match : List FeatureFlagCondition → FeatureFlagContext → Result Bool
  unfolding evaluate_condition
  all_match [] ctx = ok true
  all_match (c ∷ cs) ctx =
      bind (evaluate_condition c ctx) λ b. if b then all_match cs ctx else ok false

  -- `FeatureFlagRule.evaluate`
  unfoldable pub evaluate_rule : FeatureFlagRule → FeatureFlagContext → Result Bool
  unfolding all_match is_in_rollout
  evaluate_rule r ctx =
      bind (all_match r.conditions ctx)
        λ b. ok (if b then is_in_rollout ctx.user_id r.rollout else false)

  -- The percentage of a flag is stored as it came: only a number can be compared.
  abbrev pub as_number : Value → Result ℤ
  as_number (num n) = ok n
  as_number (flag b) = ok (number b)
  as_number v = raised (failure "not comparable")

  -- The loop over the rules, and the rollout of the flag after it.
  unfoldable pub evaluate_rules :
      FeatureFlag → List FeatureFlagRule → FeatureFlagContext → Result (Value × Bool)
  unfolding evaluate_rule is_in_rollout
  evaluate_rules f [] ctx = bind (as_number f.percentage) λ p.
      ok (if is_in_rollout ctx.user_id p then (f.enabled_value, true) else (f.default_value, false))
  evaluate_rules f (r ∷ rs) ctx =
      bind (evaluate_rule r ctx) λ b. if b then ok (r.value, true) else evaluate_rules f rs ctx

  -- `FeatureFlag.evaluate`
  unfoldable pub evaluate : FeatureFlag → FeatureFlagContext → Result (Value × Bool)
  unfolding evaluate_rules
  evaluate f ctx =
      if f.is_enabled then evaluate_rules f f.rules ctx else ok (f.default_value, false)
