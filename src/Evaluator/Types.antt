-- ===== src/Evaluator/Types.antt =====
-- The config, its targeting rules and the explanation of an evaluation:
-- packages/config-evaluator/src/types.ts
use js_sdks.Common.{ℕ, Bool, Option, List, Text}
use js_sdks.Evaluator.Value.{Value, ResolvedType}
use js_sdks.Evaluator.Rollout.{Scalar, Percentage, BucketExplanation, RolloutShare, RuleServing}
use js_sdks.Evaluator.Condition.{Condition}

-- A rule of any type: the properties that its type does not have are not read.
pub record Rule (F : Type 0) : Type 0 where
  pub id : Text
  pub type : Text
  pub order : Option F
  pub conditions : Option (List Condition)
  pub target : Text
  pub value : Option (Scalar F)
  pub value_id : Option Text
  pub variation_id : Option Text
  pub percentages : Option (List (Percentage F))

pub record TargetingRules (F : Type 0) : Type 0 where
  pub default_value : Text
  pub default_value_id : Option Text
  pub default_variation_id : Option Text
  pub rules : Option (List (Rule F))

pub record Variation : Type 0 where
  pub id : Option Text
  pub name : Option Text

pub record Config (F : Type 0) : Type 0 where
  pub id : Text
  pub key : Text
  pub type : Text
  pub variations : Option (List Variation)
  pub target : Option (TargetingRules F)

pub data ConditionExplanation (F : Type 0) : Type 0 where
  not_evaluated_condition : Text → ConditionExplanation F
  attribute_condition : Text → Bool → Option (Value F) → ResolvedType → ConditionExplanation F
  segment_condition : Text → Bool → Text → Bool → Option ℕ → ConditionExplanation F

pub data RuleOutcome : Type 0 where
  matched not_matched_rule not_evaluated errored skipped_no_identifier : RuleOutcome

pub record RuleExplanation (F : Type 0) : Type 0 where
  pub rule_id : Text
  pub outcome : RuleOutcome
  pub conditions : List (ConditionExplanation F)
  pub bucket : Option (BucketExplanation F)

pub record WalkedRule (F : Type 0) : Type 0 where
  pub explanation : RuleExplanation F
  pub serving : RuleServing

pub data ServedBy : Type 0 where
  rule : Text → ServedBy
  default : ServedBy

pub data ServingReason : Type 0 where
  found_match no_identifier : ServingReason

pub record EvaluationExplanation (F : Type 0) : Type 0 where
  pub value : Option Text
  pub value_id : Option Text
  pub variation_id : Option Text
  pub rollout_share : Option RolloutShare
  pub reason : ServingReason
  pub served_by : ServedBy
  pub rules : List (RuleExplanation F)

-- The variation of a `ConfigState`.
pub record ServedVariation : Type 0 where
  pub id : Text
  pub name : Option Text

pub record ConfigState : Type 0 where
  pub id : Text
  pub key : Text
  pub type : Text
  pub value : Option Text
  pub value_id : Option Text
  pub variation : Option ServedVariation
  pub rollout_share : Option RolloutShare
