-- ===== src/Evaluator/Walk.antt =====
-- The walk over the targeting rules: `explain` and `evaluate` of
-- packages/config-evaluator/src/ConfigEvaluator.ts
pub mod FirstMatch
pub mod Errors
pub mod Order
use js_sdks.Common.{
  ℕ, Bool, true, false, not, ◌&&◌, Option, none, some, List, [], ◌∷◌, ◌++◌, map, Text, codes,
  text_eq, length, drop, or_else, if◌then◌else◌, Fallible, returns, throws, ◌>>=◌,
}
use js_sdks.Evaluator.Value.{Externals, Value, ResolvedType}
use js_sdks.Evaluator.Rollout.{
  Scalar, Percentage, BucketExplanation, RolloutShare, ServedValue, RuleServing, served,
  not_matched, rollout_skipped_no_identifier, text_of_scalar, explain_rollout,
}
use js_sdks.Evaluator.Condition.{EvaluationContext, optional}
use js_sdks.Evaluator.Segment.{Segments}
use js_sdks.Evaluator.Rule.{explain_rule}
use js_sdks.Evaluator.Types.{
  Rule, TargetingRules, Variation, Config, ConditionExplanation, not_evaluated_condition,
  attribute_condition, segment_condition, RuleOutcome, matched, not_matched_rule, not_evaluated,
  errored, skipped_no_identifier, RuleExplanation, WalkedRule, rule, default, found_match,
  no_identifier, ServingReason, EvaluationExplanation, ServedVariation, ConfigState,
}

abbrev pub is_not_matched : RuleServing → Bool
is_not_matched not_matched = true
is_not_matched _ = false

abbrev has_id : Text → Variation → Bool
has_id id v = elim v.id [ none ↦ false | some i ↦ text_eq i id ]

unfoldable pub find_variation : Text → List Variation → Option ServedVariation
find_variation id [] = none
find_variation id (v ∷ vs) =
    if has_id id v then some (record { id = id; name = v.name }) else find_variation id vs

module _ {F : Type 0} where
  unfoldable pub served_variation : Config F → Option Text → Option ServedVariation
  unfolding find_variation
  served_variation config none = none
  served_variation config (some id) = find_variation id (or_else config.variations [])

  unfoldable pub served_config_state : Config F → EvaluationExplanation F → ConfigState
  unfolding served_variation
  served_config_state config explanation = record {
    id = config.id;
    key = config.key;
    type = config.type;
    value = explanation.value;
    value_id = explanation.value_id;
    variation = served_variation config explanation.variation_id;
    rollout_share = explanation.rollout_share;
  }

  abbrev pub not_evaluated_rule : Rule F → RuleExplanation F
  not_evaluated_rule r = record {
    rule_id = r.id;
    outcome = not_evaluated;
    conditions = [];
    bucket = none;
  }

  abbrev pub last_serving : List (WalkedRule F) → RuleServing
  last_serving [] = not_matched
  last_serving (w ∷ []) = w.serving
  last_serving (w ∷ v ∷ ws) = last_serving (v ∷ ws)

  abbrev pub rules_of : Config F → List (Rule F)
  rules_of config = or_else (optional config.target (λ t. t.rules)) []

  abbrev pub default_explanation :
      Config F → List (RuleExplanation F) → ServingReason → EvaluationExplanation F
  default_explanation config explanations reason = record {
    value = optional config.target (λ t. some t.default_value);
    value_id = optional config.target (λ t. t.default_value_id);
    variation_id = optional config.target (λ t. t.default_variation_id);
    rollout_share = none;
    reason = reason;
    served_by = default;
    rules = explanations;
  }

  abbrev pub served_explanation :
      List (RuleExplanation F) → Text → ServedValue → EvaluationExplanation F
  served_explanation explanations rule_id v = record {
    value = some v.value;
    value_id = v.value_id;
    variation_id = v.variation_id;
    rollout_share = v.rollout_share;
    reason = found_match;
    served_by = rule rule_id;
    rules = explanations;
  }

  abbrev pub conclude : Config F → List (RuleExplanation F) → RuleServing → EvaluationExplanation F
  conclude config explanations (served rule_id v) = served_explanation explanations rule_id v
  conclude config explanations rollout_skipped_no_identifier =
      default_explanation config explanations no_identifier
  conclude config explanations not_matched = default_explanation config explanations found_match

  -- The explanations of the walked rules, then of those that the walk did not reach.
  unfoldable pub rule_explanations : List (Rule F) → List (WalkedRule F) → List (RuleExplanation F)
  rule_explanations rules walks =
      map (λ w. w.explanation) walks ++ map not_evaluated_rule (drop (length walks) rules)

module _ {F V : Type 0} (env : Externals F V) where
  abbrev pub order_key : Rule F → F
  order_key r = or_else r.order env.max_safe_integer

  -- `a` is sorted behind `b`: the comparator is positive.
  abbrev pub sorts_after : Rule F → Rule F → Bool
  sorts_after a b = env.num_lt env.zero_num (env.sub (order_key a) (order_key b))

  -- `sort` of ECMAScript is stable: a rule goes before the first one that sorts after it.
  unfoldable pub insert_rule : Rule F → List (Rule F) → List (Rule F)
  insert_rule r [] = r ∷ []
  insert_rule r (q ∷ qs) = if sorts_after r q then q ∷ insert_rule r qs else r ∷ q ∷ qs

  unfoldable pub sort_rules : List (Rule F) → List (Rule F)
  unfolding insert_rule
  sort_rules [] = []
  sort_rules (r ∷ rs) = insert_rule r (sort_rules rs)

module _ {F V : Type 0} (env : Externals F V) (context : Option (EvaluationContext F))
    (segments : Option Segments) where
  -- The loop over the rules, which ends at the first one that does not fall through.
  unfoldable pub walk_rules : Text → List (Rule F) → List (WalkedRule F)
  walk_rules config_id [] = []
  walk_rules config_id (r ∷ rs) =
      let w = explain_rule env context segments config_id r in
      let rest = walk_rules config_id rs in if is_not_matched w.serving then w ∷ rest else w ∷ []

  unfoldable pub explain : Config F → EvaluationExplanation F
  explain config =
      let rules = sort_rules env (rules_of config) in
      let walks = walk_rules config.id rules in
      conclude config (rule_explanations rules walks) (last_serving walks)

  unfoldable pub evaluate : Config F → ConfigState
  evaluate config = served_config_state config (explain config)
