-- ===== src/Domain/Feature/Stored.antt =====
-- `FeatureFlag.__init__`: a flag from the JSON that is stored. Name, key, description and type play
-- no part in the evaluation.
use clean_architecture_saas.Prelude.{
  Bool, true, false, Option, none, some, List, [], ◌∷◌, ◌==◌, nat_eq, if◌then◌else◌,
}
use clean_architecture_saas.Python.Exec.{failure, Result, ok, raised, bind}
use clean_architecture_saas.Python.Int.{ℤ, pos}
use clean_architecture_saas.Python.Value.{
  Value, nul, num, list, dict, truthy, Values, nil, cons, Fields, end, field, get_field, or_nul,
}
use clean_architecture_saas.Python.Equality.{size}
use clean_architecture_saas.Cache.InMemory.{int_of}
use clean_architecture_saas.Domain.Feature.{FeatureFlagCondition, FeatureFlagRule, FeatureFlag}

abbrev three_fields :
    Fields → Option Value → Option Value → Option Value → Result FeatureFlagCondition
three_fields fs (some a) (some o) (some v) =
    if nat_eq (size fs) 3
    then ok (record { attribute = a; operator = o; value = v })
    else raised (failure "unexpected keyword argument")
three_fields fs a o v = raised (failure "missing keyword argument")

-- `FeatureFlagCondition(**c)`: the three names, and no other.
unfoldable pub condition_of : Value → Result FeatureFlagCondition
unfolding get_field
condition_of (dict fs) =
    three_fields fs (get_field fs "attribute") (get_field fs "operator") (get_field fs "value")
condition_of v = raised (failure "not a mapping")

unfoldable pub conditions_of : Values → Result (List FeatureFlagCondition)
unfolding condition_of
conditions_of nil = ok []
conditions_of (cons v vs) = bind (condition_of v) λ c. bind (conditions_of vs) λ cs. ok (c ∷ cs)

-- The loop over `v or []`: what is not a list holds no mapping, or cannot be looped over.
abbrev each : {A : Type 0} → (Values → Result (List A)) → Value → Result (List A)
each f (list vs) = f vs
each f v = if truthy v then raised (failure "not a list of mappings") else ok []

-- `int(…)` of the rollout of a rule, or else of its entry "percentage", or else 100.
unfoldable pub rule_rollout : Value → ℤ
unfolding int_of get_field
rule_rollout nul = pos 100
rule_rollout (dict fs) = elim (get_field fs "percentage") [
  | none ↦ pos 100
  | some p ↦ elim (int_of p) [ none ↦ pos 100 | some n ↦ n ]
]
rule_rollout v = elim (int_of v) [ none ↦ pos 100 | some n ↦ n ]

unfoldable pub rule_of : Value → Result FeatureFlagRule
unfolding conditions_of rule_rollout get_field
rule_of (dict fs) = bind (each conditions_of (or_nul (get_field fs "conditions"))) λ cs.
    ok (record {
      id = get_field fs "id";
      conditions = cs;
      value = or_nul (get_field fs "value");
      rollout = rule_rollout (or_nul (get_field fs "rollout"));
    })
rule_of v = raised (failure "no attribute get")

unfoldable pub rules_of : Values → Result (List FeatureFlagRule)
unfolding rule_of
rules_of nil = ok []
rules_of (cons v vs) = bind (rule_of v) λ r. bind (rules_of vs) λ rs. ok (r ∷ rs)

-- The names of a rollout are "percentage" and "strategy".
known_names : Fields → Bool
known_names end = true
known_names (field k v fs) =
    let rest = known_names fs in
    if k == "percentage" then rest else if k == "strategy" then rest else false

abbrev percentage_in : Fields → Result Value
percentage_in fs =
    if known_names fs
    then ok (elim (get_field fs "percentage") [ none ↦ num (pos 0) | some p ↦ p ])
    else raised (failure "unexpected keyword argument")

-- `FeatureFlagRollout(**(rollout or {})).percentage`
unfoldable pub percentage_of : Value → Result Value
unfolding known_names get_field
percentage_of (dict fs) = percentage_in fs
percentage_of v = if truthy v then raised (failure "not a mapping") else ok (num (pos 0))

unfoldable pub flag_of : Fields → Result FeatureFlag
unfolding rules_of percentage_of get_field
flag_of ff = bind (each rules_of (or_nul (get_field ff "rules"))) λ rules.
    bind (percentage_of (or_nul (get_field ff "rollout"))) λ p. ok (record {
      is_enabled = truthy (or_nul (get_field ff "is_enabled"));
      enabled_value = or_nul (get_field ff "enabled_value");
      default_value = or_nul (get_field ff "default_value");
      rules = rules;
      percentage = p;
    })
