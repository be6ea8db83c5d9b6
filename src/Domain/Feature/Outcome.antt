-- ===== src/Domain/Feature/Outcome.antt =====
-- What a flag evaluates to: the first rule that matches decides, then the rollout of the flag.
use clean_architecture_saas.Prelude.{
  String, ◌≡◌, refl, ap, ◌↔◌, Bool, true, false, List, [], ◌∷◌, ◌++◌, All, arith, Bool-cases, inl,
  inr, subst,
}
use clean_architecture_saas.Python.Exec.{ok, Result-cases}
use clean_architecture_saas.Python.Int.{ℤ}
use clean_architecture_saas.Python.Value.{Value}
use clean_architecture_saas.Domain.Feature.{
  FeatureFlagCondition, FeatureFlagRule, FeatureFlag, FeatureFlagContext, evaluate_condition,
  all_match, is_in_rollout, evaluate_rule, as_number, evaluate_rules, evaluate,
}

module _ (hash : String → ℤ) (ctx : FeatureFlagContext) where
  matches-All :
      (cs : List FeatureFlagCondition)
      → all_match hash cs ctx ≡ ok true
      → All (λ c. evaluate_condition c ctx ≡ ok true) cs
  unfolding all_match
  matches-All [] h = tt
  matches-All (c ∷ cs) h = elim (Result-cases (evaluate_condition c ctx)) [
    | inr (e, r) ↦ ground arith
    | inl (b, r) ↦ elim (Bool-cases b) [
      | inl t ↦ (ground arith, matches-All cs (ground arith))
      | inr f ↦ ground arith
    ]
  ]

  All-matches :
      (cs : List FeatureFlagCondition)
      → All (λ c. evaluate_condition c ctx ≡ ok true) cs
      → all_match hash cs ctx ≡ ok true
  unfolding all_match
  All-matches [] h = refl
  All-matches (c ∷ cs) (h, hs) = ground (arith, All-matches cs hs)

  rule_sound :
      (r : FeatureFlagRule)
      → evaluate_rule hash r ctx ≡ ok true
      → All (λ c. evaluate_condition c ctx ≡ ok true) r.conditions
        × (is_in_rollout hash ctx.user_id r.rollout ≡ true)
  unfolding evaluate_rule
  rule_sound r h = elim (Result-cases (all_match hash r.conditions ctx)) [
    | inr (e, x) ↦ ground arith
    | inl (b, x) ↦ elim (Bool-cases b) [
      | inl t ↦ (matches-All r.conditions (ground arith), ground arith)
      | inr f ↦ ground arith
    ]
  ]

  rule_complete :
      (r : FeatureFlagRule)
      → All (λ c. evaluate_condition c ctx ≡ ok true) r.conditions
        × (is_in_rollout hash ctx.user_id r.rollout ≡ true)
      → evaluate_rule hash r ctx ≡ ok true
  unfolding evaluate_rule
  rule_complete r (h, k) = ground (arith, All-matches r.conditions h)

  -- A rule applies exactly if every condition of it holds and the user is in its rollout.
  rule_iff :
      (r : FeatureFlagRule)
      → (evaluate_rule hash r ctx ≡ ok true) ↔ (
          All (λ c. evaluate_condition c ctx ≡ ok true) r.conditions
          × (is_in_rollout hash ctx.user_id r.rollout ≡ true))
  rule_iff r = (rule_sound r, rule_complete r)

  abbrev Missed : List FeatureFlagRule → Type 0
  Missed rs = All (λ r. evaluate_rule hash r ctx ≡ ok false) rs

  -- The answer of a flag, apart from the code that computes it.
  pub data Outcome (f : FeatureFlag) (rules : List FeatureFlagRule) : Value × Bool → Type 0 where
    by_rule :
        (before : List FeatureFlagRule) (r : FeatureFlagRule) (later : List FeatureFlagRule)
        → rules ≡ before ++ r ∷ later
        → Missed before
        → evaluate_rule hash r ctx ≡ ok true
        → Outcome f rules (r.value, true)
    rolled_out :
        (p : ℤ)
        → Missed rules
        → as_number hash f.percentage ≡ ok p
        → is_in_rollout hash ctx.user_id p ≡ true
        → Outcome f rules (f.enabled_value, true)
    left_out :
        (p : ℤ)
        → Missed rules
        → as_number hash f.percentage ≡ ok p
        → is_in_rollout hash ctx.user_id p ≡ false
        → Outcome f rules (f.default_value, false)

  after_miss :
      (f : FeatureFlag) (r : FeatureFlagRule) (rs : List FeatureFlagRule) (out : Value × Bool)
      → evaluate_rule hash r ctx ≡ ok false
      → Outcome f rs out
      → Outcome f (r ∷ rs) out
  after_miss f r rs _ m (by_rule before q later e h k) =
      by_rule (r ∷ before) q later (ap (λ qs. r ∷ qs) e) (m, h) k
  after_miss f r rs _ m (rolled_out p h e k) = rolled_out p (m, h) e k
  after_miss f r rs _ m (left_out p h e k) = left_out p (m, h) e k

  end_sound :
      (f : FeatureFlag) (out : Value × Bool)
      → evaluate_rules hash f [] ctx ≡ ok out
      → Outcome f [] out
  unfolding evaluate_rules
  end_sound f out h = elim (Result-cases (as_number hash f.percentage)) [
    | inr (e, x) ↦ ground arith
    | inl (p, x) ↦ elim (Bool-cases (is_in_rollout hash ctx.user_id p)) [
      | inl here ↦ subst (Outcome f []) (ground arith) (rolled_out p tt x here)
      | inr other ↦ subst (Outcome f []) (ground arith) (left_out p tt x other)
    ]
  ]

  rules_sound :
      (f : FeatureFlag) (rules : List FeatureFlagRule) (out : Value × Bool)
      → evaluate_rules hash f rules ctx ≡ ok out
      → Outcome f rules out
  unfolding evaluate_rules
  rules_sound f [] out h = end_sound f out h
  rules_sound f (r ∷ rs) out h = elim (Result-cases (evaluate_rule hash r ctx)) [
    | inr (e, x) ↦ ground arith
    | inl (b, x) ↦ elim (Bool-cases b) [
      | inl t ↦ subst (Outcome f (r ∷ rs)) (ground arith) (by_rule [] r rs refl tt (ground arith))
      | inr m ↦ after_miss f r rs out (ground arith) (rules_sound f rs out (ground arith))
    ]
  ]

  past :
      (f : FeatureFlag) (before later : List FeatureFlagRule)
      → Missed before
      → evaluate_rules hash f (before ++ later) ctx ≡ evaluate_rules hash f later ctx
  unfolding evaluate_rules
  past f [] later h = refl
  past f (r ∷ before) later (m, h) = ground (arith, past f before later h)

  past_all :
      (f : FeatureFlag) (rules : List FeatureFlagRule)
      → Missed rules
      → evaluate_rules hash f rules ctx ≡ evaluate_rules hash f [] ctx
  unfolding evaluate_rules
  past_all f [] h = refl
  past_all f (r ∷ rs) (m, h) = ground (arith, past_all f rs h)

  rules_complete :
      (f : FeatureFlag) (rules : List FeatureFlagRule) (out : Value × Bool)
      → Outcome f rules out
      → evaluate_rules hash f rules ctx ≡ ok out
  unfolding evaluate_rules
  rules_complete f rules _ (by_rule before r later e h k) =
      ground (arith, past f before (r ∷ later) h)
  rules_complete f rules _ (rolled_out p h e k) = ground (arith, past_all f rules h)
  rules_complete f rules _ (left_out p h e k) = ground (arith, past_all f rules h)

  -- An enabled flag gives an answer exactly if the answer is the value of the first rule that
  -- applies, or, when every rule is evaluated and none applies, the value that the rollout of the
  -- flag selects.
  pub evaluate_iff :
      (f : FeatureFlag) (out : Value × Bool)
      → f.is_enabled ≡ true
      → (evaluate hash f ctx ≡ ok out) ↔ Outcome f f.rules out
  unfolding evaluate
  evaluate_iff f out on = (
    λ h. rules_sound f f.rules out (ground arith),
    λ o. ground (arith, rules_complete f f.rules out o),
  )
