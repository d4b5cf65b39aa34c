-- ===== src/Evaluator/Rollout.antt =====
-- Percentage rollouts: `explainRollout` of packages/config-evaluator/src/ConfigEvaluator.ts and
-- packages/config-evaluator/src/percent-hashing.ts
pub mod Shares
pub mod Serving
use js_sdks.Common.{
  ℕ, ◌%◌, Bool, true, false, not, ◌&&◌, Option, none, some, List, [], ◌∷◌, ◌++◌, Text, codes,
  text_eq, is_some, if◌then◌else◌,
}
use js_sdks.Evaluator.Value.{Externals, text_of_bool}
use js_sdks.Evaluator.Condition.{
  EvaluationContext, Context, optional, inner_context, effective_context_kind, user_context_kind,
}

-- `string | number | boolean`.
pub data Scalar (F : Type 0) : Type 0 where
  text : Text → Scalar F
  number : F → Scalar F
  boolean : Bool → Scalar F

pub record Percentage (F : Type 0) : Type 0 where
  pub id : Text
  pub percentage : F
  pub value : Option (Scalar F)
  pub value_id : Option Text
  pub variation_id : Option Text

pub record Share (F : Type 0) : Type 0 where
  pub percentage_id : Text
  pub from : F
  pub to : F
  pub value : Option Text

pub record BucketExplanation (F : Type 0) : Type 0 where
  pub identifier : Text
  pub assigned_percentage : F
  pub shares : List (Share F)
  pub selected_percentage_id : Option Text

pub record RolloutShare : Type 0 where
  pub rule_id : Text
  pub share_id : Text

pub record ServedValue : Type 0 where
  pub value : Text
  pub value_id : Option Text
  pub variation_id : Option Text
  pub rollout_share : Option RolloutShare

pub data RuleServing : Type 0 where
  served : Text → ServedValue → RuleServing
  not_matched : RuleServing
  rollout_skipped_no_identifier : RuleServing

-- `SEED` of percent-hashing.ts.
abbrev pub hash_seed : ℕ
hash_seed = 0x397832987

unfoldable pub hash_input : Text → Text → Text → Text
hash_input config_id identifier kind =
    if text_eq kind user_context_kind
    then identifier ++ b'-' ∷ config_id
    else identifier ++ b'-' ∷ (config_id ++ b':' ∷ kind)

module _ {F V : Type 0} (env : Externals F V) where
  unfoldable pub assign_percentage : Text → Text → Text → F
  assign_percentage config_id identifier kind =
      env.tenths (env.rapidhash (hash_input config_id identifier kind) hash_seed % 1000)

  -- `value.toString()`.
  unfoldable pub text_of_scalar : Scalar F → Text
  text_of_scalar (text s) = s
  text_of_scalar (number n) = env.text_of n
  text_of_scalar (boolean b) = text_of_bool b

  abbrev pub text_option : Option (Scalar F) → Option Text
  text_option none = none
  text_option (some v) = some (text_of_scalar v)

  abbrev pub share_of : Percentage F → F → F → Share F
  share_of p from to = record {
    percentage_id = p.id;
    from = from;
    to = to;
    value = text_option p.value;
  }

  -- The loop over the percentages: the start of the next share and the one selected so far.
  unfoldable pub walk_shares :
      F → F → Option (Percentage F) → List (Percentage F) → List (Share F) × Option (Percentage F)
  walk_shares assigned share_start selected [] = ([], selected)
  walk_shares assigned share_start selected (p ∷ ps) =
      let share_end = env.add share_start p.percentage in
      let selected' =
        if not (is_some selected) && env.num_lt assigned share_end then some p else selected in
      let (shares, chosen) = walk_shares assigned share_end selected' ps in
      (share_of p share_start share_end ∷ shares, chosen)

  abbrev serve_percentage : Text → Percentage F → Scalar F → RuleServing
  serve_percentage rule_id p value = served rule_id (record {
    value = text_of_scalar value;
    value_id = p.value_id;
    variation_id = p.variation_id;
    rollout_share = some (record { rule_id = rule_id; share_id = p.id });
  })

  -- `selectedPercentage?.value == null` is not matched.
  unfoldable pub serve_selected : Text → Option (Percentage F) → RuleServing
  serve_selected rule_id none = not_matched
  serve_selected rule_id (some p) = elim p.value [
    | none ↦ not_matched
    | some value ↦ serve_percentage rule_id p value
  ]

  abbrev pub bucket_of : Text → F → List (Percentage F) → BucketExplanation F
  bucket_of identifier assigned ps =
      let walked = walk_shares assigned env.zero_num none ps in
      record {
        identifier = identifier;
        assigned_percentage = assigned;
        shares = walked.0;
        selected_percentage_id = optional walked.1 (λ p. some p.id);
      }

  abbrev rollout_for :
      Text
      → Text
      → Option (EvaluationContext F)
      → List (Percentage F)
      → Text
      → RuleServing × Option (BucketExplanation F)
  rollout_for rule_id config_id context ps identifier =
      let assigned = assign_percentage config_id identifier (effective_context_kind context) in
      (
        serve_selected rule_id (walk_shares assigned env.zero_num none ps).1,
        some (bucket_of identifier assigned ps),
      )

  abbrev pub identifier_of : Option (EvaluationContext F) → Option Text
  identifier_of context = optional (inner_context context) (λ c. c.id)

  -- The serving, and the bucket that is written into the explanation.
  unfoldable pub explain_rollout :
      Text
      → Text
      → Option (List (Percentage F))
      → Option (EvaluationContext F)
      → RuleServing × Option (BucketExplanation F)
  explain_rollout rule_id config_id none context = (not_matched, none)
  explain_rollout rule_id config_id (some ps) context = elim (identifier_of context) [
    | none ↦ (rollout_skipped_no_identifier, none)
    | some identifier ↦ rollout_for rule_id config_id context ps identifier
  ]
