-- ===== src/Server/Served.antt =====
-- What the client for servers gives for a config: the evaluator's value, read by the parser.
use js_sdks.Common.{
  ◌≡◌, ◌≢◌, ◌⊎◌, inl, inr, Bool, true, false, Option, none, some, Text, if_true, if_false,
}
use js_sdks.ConfigValue.{JsValue, Parsing, Reason, found_match, json_shape_of, parse_config_value}
use js_sdks.ConfigValue.Outcome.{parse_config_value-cases}
use js_sdks.Evaluator.Value.{Externals}
use js_sdks.Evaluator.Condition.{EvaluationContext}
use js_sdks.Evaluator.Segment.{Segments}
use js_sdks.Evaluator.Types.{Config, ServingReason}
use js_sdks.Evaluator.Walk.{explain, served_config_state}
use js_sdks.Server.{parsed, serving, ServerEvaluation, state_for_parser, evaluation_of}

-- The default value, for a reason of the parser, which is not a match; nothing of the config is given.
pub record IsDefaulted {F : Type 0} (default : JsValue F) (e : ServerEvaluation F) : Type 0 where
  pub flag : e.is_default_value ≡ true
  pub value : e.value ≡ default
  pub no_id : e.value_id ≡ none
  pub no_variation : e.variation ≡ none
  pub why : Reason
  pub reason : e.reason ≡ parsed why
  pub no_match : why ≢ found_match

-- A value of the shape of the default value, with the id and the reason of the evaluator.
pub record IsServed {F : Type 0} (default : JsValue F) (value_id : Option Text)
    (why : ServingReason) (e : ServerEvaluation F) : Type 0 where
  pub flag : e.is_default_value ≡ false
  pub shape : json_shape_of e.value ≡ json_shape_of default
  pub id : e.value_id ≡ value_id
  pub reason : e.reason ≡ serving why

module _ {F V : Type 0} (env : Externals F V) (parsing : Parsing F)
    (context : Option (EvaluationContext F)) where
  -- An evaluation of a config that the client holds gives either the default value, with a reason of the
  -- parser that is not a match and nothing of the config, or a value of the shape of the default value
  -- with the value id that the evaluator served and the evaluator's reason.
  pub evaluation_of-cases :
      (segments : Option Segments) (ready : Bool) (key : Text) (config : Config F)
      (default : JsValue F)
      → IsDefaulted default
          (evaluation_of env parsing context segments ready key (some config) default)
        ⊎ IsServed default
            (explain env context segments config).value_id
            (explain env context segments config).reason
            (evaluation_of env parsing context segments ready key (some config) default)
  unfolding evaluation_of state_for_parser served_config_state
  evaluation_of-cases segments ready key config default =
      let explanation = explain env context segments config in
      let state = state_for_parser (served_config_state config explanation) in
      let result = parse_config_value parsing state default in
      let parse_reason = result.value_and_reason.reason in
      let used = result.value_and_reason.used_default in
      elim (parse_config_value-cases parsing state default) [
        | inl (kept, no_variation, _, _) ↦ inl (record {
          flag = kept.used;
          value = kept.value;
          no_id = kept.no_id;
          no_variation = no_variation;
          why = parse_reason;
          reason = if_true used (parsed parse_reason) (serving explanation.reason) kept.used;
          no_match = kept.reason;
        })
        | inr (found, _, _, _) ↦ inr (record {
          flag = found.not_used;
          shape = found.shape;
          id = found.id;
          reason = if_false used (parsed parse_reason) (serving explanation.reason) found.not_used;
        })
      ]
