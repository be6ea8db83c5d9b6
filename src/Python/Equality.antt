-- ===== src/Python/Equality.antt =====
-- `==` of dynamic values: `True == 1`, and dictionaries are equal in any order. An object of the
-- domain is equal to no JSON value.
use clean_architecture_saas.Prelude.{
  ℕ, String, Bool, true, false, ◌&&◌, none, some, List, [], ◌∷◌, ◌==◌, nat_eq, suc, zero,
}
use clean_architecture_saas.Python.Int.{ℤ, pos, eq_ℤ}
use clean_architecture_saas.Python.Value.{
  Value, nul, flag, num, text, list, texts, dict, user, users, moment, Values, nil, cons, Fields,
  end, field, get_field,
}

abbrev pub number : Bool → ℤ
number true = pos 1
number false = pos 0

unfoldable pub of_texts : List String → Values
of_texts [] = nil
of_texts (s ∷ ss) = cons (text s) (of_texts ss)

abbrev pub size : Fields → ℕ
size end = zero
size (field k v fs) = suc (size fs)

-- What holds a number, as `bool` does too.
abbrev eq_number : ℤ → Value → Bool
eq_number n (num m) = eq_ℤ n m
eq_number n (flag b) = eq_ℤ n (number b)
eq_number n v = false

abbrev eq_text : String → Value → Bool
eq_text s (text t) = s == t
eq_text s v = false

unfoldable pub eq_texts : List String → Values → Bool
eq_texts [] nil = true
eq_texts [] (cons w ws) = false
eq_texts (s ∷ ss) nil = false
eq_texts (s ∷ ss) (cons w ws) = eq_text s w && eq_texts ss ws

unfoldable mutual
  unfolding of_texts eq_texts get_field

  pub eq_value : Value → Value → Bool
  eq_value nul nul = true
  eq_value nul w = false
  eq_value (flag b) w = eq_number (number b) w
  eq_value (num n) w = eq_number n w
  eq_value (text s) w = eq_text s w
  eq_value (list vs) (list ws) = eq_values vs ws
  eq_value (list vs) (texts ts) = eq_values vs (of_texts ts)
  eq_value (list vs) w = false
  eq_value (texts ss) (list ws) = eq_texts ss ws
  eq_value (texts ss) (texts ts) = eq_texts ss (of_texts ts)
  eq_value (texts ss) w = false
  eq_value (dict fs) (dict gs) = nat_eq (size fs) (size gs) && eq_fields fs gs
  eq_value (dict fs) w = false
  eq_value (user u) w = false
  eq_value (users us) w = false
  eq_value (moment t) (moment t') = nat_eq t t'
  eq_value (moment t) w = false

  pub eq_values : Values → Values → Bool
  eq_values nil nil = true
  eq_values nil (cons w ws) = false
  eq_values (cons v vs) nil = false
  eq_values (cons v vs) (cons w ws) = eq_value v w && eq_values vs ws

  -- Every field of the first is in the second.
  pub eq_fields : Fields → Fields → Bool
  eq_fields end gs = true
  eq_fields (field k v fs) gs =
      elim (get_field gs k) [ none ↦ false | some w ↦ eq_value v w ] && eq_fields fs gs
