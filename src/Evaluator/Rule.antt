-- ===== src/Evaluator/Rule.antt =====
-- `explainRule` of packages/config-evaluator/src/ConfigEvaluator.ts and what it calls.
pub mod Conditions
use js_sdks.Common.{
  ℕ, Bool, true, false, not, ◌&&◌, Option, none, some, List, [], ◌∷◌, ◌++◌, map, Text, codes,
  text_eq, length, drop, or_else, if◌then◌else◌, Fallible, returns, throws, ◌>>=◌,
}
use js_sdks.Evaluator.Value.{Externals, Value, ResolvedType}
use js_sdks.Evaluator.Rollout.{
  Scalar, Percentage, BucketExplanation, RolloutShare, ServedValue, RuleServing, served,
  not_matched, rollout_skipped_no_identifier, text_of_scalar, explain_rollout,
}
use js_sdks.Evaluator.Condition.{Condition, ConditionCheck, EvaluationContext}
use js_sdks.Evaluator.Condition
use js_sdks.Evaluator.Segment.{Segments, SegmentCheck}
use js_sdks.Evaluator.Segment
use js_sdks.Evaluator.Types.{
  Rule, TargetingRules, Variation, Config, ConditionExplanation, not_evaluated_condition,
  attribute_condition, segment_condition, RuleOutcome, matched, not_matched_rule, not_evaluated,
  errored, skipped_no_identifier, RuleExplanation, WalkedRule, rule, default, found_match,
  no_identifier, ServingReason, EvaluationExplanation, ServedVariation, ConfigState,
}

-- `outcomeByServingKind`.
unfoldable pub outcome_of : RuleServing → RuleOutcome
outcome_of (served id value) = matched
outcome_of not_matched = not_matched_rule
outcome_of rollout_skipped_no_identifier = skipped_no_identifier

module _ {F : Type 0} where
  -- The outcome of a condition that was checked.
  unfoldable pub has_matched : ConditionExplanation F → Bool
  has_matched (not_evaluated_condition id) = false
  has_matched (attribute_condition id m v t) = m
  has_matched (segment_condition id m s found index) = m

  abbrev of_attribute : Text → ConditionCheck F → ConditionExplanation F
  of_attribute id check =
      attribute_condition id check.matched check.resolved_value check.resolved_type

  abbrev of_segment : Text → Text → SegmentCheck → ConditionExplanation F
  of_segment id segment_id check =
      segment_condition id check.matched segment_id check.segment_found check.matched_group_index

abbrev pub is_segment_kind : Option Text → Bool
is_segment_kind none = false
is_segment_kind (some kind) = text_eq kind (codes "segment")

-- A rule in a context, for one config and the payload's segments.
module _ {F V : Type 0} (env : Externals F V) (context : Option (EvaluationContext F))
    (segments : Option Segments) where
  unfoldable pub explain_condition : Condition → Fallible (ConditionExplanation F)
  explain_condition condition =
      if is_segment_kind condition.kind
      then (Segment.explain env context condition segments >>= λ check.
          returns (of_segment condition.id condition.segment_id check))
      else (Condition.explain env condition context >>= λ check.
          returns (of_attribute condition.id check))

  abbrev pub not_evaluated_from : List Condition → List (ConditionExplanation F)
  not_evaluated_from = map (λ condition. not_evaluated_condition condition.id)

  -- The loop over the conditions: after one that did not match the others are not evaluated. The
  -- flag of the result is `aConditionDidNotMatch`.
  unfoldable pub explain_conditions :
      List Condition → Fallible (List (ConditionExplanation F) × Bool)
  explain_conditions [] = returns ([], false)
  explain_conditions (condition ∷ conditions) =
      let rest = explain_conditions conditions in
      explain_condition condition >>= λ checked.
      if has_matched checked
      then (rest >>= λ explained. returns (checked ∷ explained.0, explained.1))
      else returns (checked ∷ not_evaluated_from conditions, true)

  -- What the branches of `explainConditionalRule` serve when every condition matched.
  unfoldable pub serve_target : Rule F → Text → RuleServing × Option (BucketExplanation F)
  serve_target r config_id =
      if text_eq r.target (codes "value")
      then (elim r.value [
        | none ↦ (not_matched, none)
        | some value ↦ (
          served r.id (record {
            value = text_of_scalar env value;
            value_id = r.value_id;
            variation_id = r.variation_id;
            rollout_share = none;
          }),
          none,
        )
      ])
      else if text_eq r.target (codes "percentage")
      then explain_rollout env r.id config_id r.percentages context
      else (not_matched, none)

  abbrev pub walked :
      Rule F
      → List (ConditionExplanation F)
      → RuleServing × Option (BucketExplanation F)
      → WalkedRule F
  walked r conditions (serving, bucket) = record {
    explanation = record {
      rule_id = r.id;
      outcome = outcome_of serving;
      conditions = conditions;
      bucket = bucket;
    };
    serving = serving;
  }

  unfoldable pub explain_conditional_rule : Rule F → Text → Fallible (WalkedRule F)
  explain_conditional_rule r config_id =
      explain_conditions (or_else r.conditions []) >>= λ explained.
      returns (
        walked r explained.0
          (if explained.1 then (not_matched, none) else serve_target r config_id))

  abbrev pub errored_rule : Rule F → WalkedRule F
  errored_rule r = record {
    explanation = record { rule_id = r.id; outcome = errored; conditions = []; bucket = none };
    serving = not_matched;
  }

  -- The `try` block of `explainRule`.
  unfoldable pub try_rule : Rule F → Text → Fallible (WalkedRule F)
  try_rule r config_id =
      if text_eq r.type (codes "percentage")
      then returns (walked r [] (explain_rollout env r.id config_id r.percentages context))
      else if text_eq r.type (codes "conditional")
      then explain_conditional_rule r config_id
      else returns (walked r [] (not_matched, none))

  -- A rule that throws is reported as errored and serves nothing.
  unfoldable pub explain_rule : Text → Rule F → WalkedRule F
  explain_rule config_id r = elim (try_rule r config_id) [ throws ↦ errored_rule r | returns w ↦ w ]
