-- ===== src/Server.antt =====
-- The client for servers: packages/js-server-sdk/src/DefaultConfigDirectorClient.ts
pub mod SegmentUse
pub mod Unreported
pub mod Served
pub mod Tests
use js_sdks.Common.{
  ℕ, Bool, true, false, not, ◌&&◌, ◌||◌, Option, none, some, List, [], ◌∷◌, ◌++◌, map, any, Text,
  codes, text_eq, includes, Entries, lookup, spread, keys, has_own, or_else, if◌then◌else◌,
}
use js_sdks.ConfigValue.{JsValue, Parsing, Reason, ParseResult, parse_config_value}
use js_sdks.ConfigValue
use js_sdks.ContextKind.{ContextAdmission, admitted, ignored, admit_context}
use js_sdks.Client.Types.{SetKind, full, delta}
use js_sdks.Evaluator.Value.{Externals}
use js_sdks.Evaluator.Condition.{Condition, EvaluationContext}
use js_sdks.Evaluator.Segment.{Segment, Segments}
use js_sdks.Evaluator.Rollout.{RolloutShare}
use js_sdks.Evaluator.Rule.{is_segment_kind}
use js_sdks.Evaluator.Types.{
  Rule, Config, EvaluationExplanation, ServingReason, ServedVariation, ConfigState,
}
use js_sdks.Evaluator.Walk.{rules_of, served_config_state, explain, evaluate}

-- `ConfigBundle`.
pub record ConfigBundle (F : Type 0) : Type 0 where
  pub configs : Entries (Config F)
  pub segments : Option Segments
  pub kind : SetKind

-- `filter` for the keys that the entries do not have.
unfoldable pub absent_keys {ℓ} : {A : Type ℓ} → Entries A → List Text → List Text
unfolding has_own
absent_keys entries [] = []
absent_keys entries (key ∷ rest) =
    let others = absent_keys entries rest in if has_own key entries then others else key ∷ others

-- `[...new Set(keys)]`: the later ones of equal keys go.
unfoldable pub unique_after : List Text → List Text → List Text
unique_after seen [] = []
unique_after seen (key ∷ rest) =
    let others = unique_after (key ∷ seen) rest in
    let same = unique_after seen rest in if includes seen key then same else key ∷ others

-- A condition on one of the segments.
abbrev pub is_on_segment : List Text → Condition → Bool
is_on_segment ids condition = is_segment_kind condition.kind && includes ids condition.segment_id

module _ {F : Type 0} where
  abbrev pub rule_uses : List Text → Rule F → Bool
  rule_uses ids r =
      text_eq r.type (codes "conditional") && any (is_on_segment ids) (or_else r.conditions [])

  unfoldable pub uses_any_segment : List Text → Config F → Bool
  uses_any_segment ids config = any (rule_uses ids) (rules_of config)

  -- The keys of the configs that use one of the segments.
  unfoldable pub keys_using : List Text → Entries (Config F) → List Text
  unfolding uses_any_segment
  keys_using ids [] = []
  keys_using ids ((key, config) ∷ entries) =
      let others = keys_using ids entries in
      if uses_any_segment ids config then key ∷ others else others

  abbrev pub merged_into : SetKind → ConfigBundle F → Option (ConfigBundle F) → ConfigBundle F
  merged_into delta bundle (some old) = record old {
    configs = spread old.configs bundle.configs;
    segments = some (spread (or_else old.segments []) (or_else bundle.segments []));
  }
  merged_into kind bundle old = bundle

  -- The bundle that the client holds after one is received.
  unfoldable pub merge_bundle : Option (ConfigBundle F) → ConfigBundle F → ConfigBundle F
  merge_bundle old bundle = merged_into bundle.kind bundle old

  abbrev pub removed_by : SetKind → ConfigBundle F → Option (ConfigBundle F) → List Text
  removed_by full bundle (some old) = absent_keys bundle.configs (keys old.configs)
  removed_by kind bundle old = []

  unfoldable pub find_keys_removed_by : Option (ConfigBundle F) → ConfigBundle F → List Text
  unfolding absent_keys
  find_keys_removed_by old bundle = removed_by bundle.kind bundle old

  -- `findKeysUpdatedBy`, of the bundle that the client then holds.
  unfoldable pub find_keys_updated_by : ConfigBundle F → ConfigBundle F → List Text
  unfolding keys_using unique_after
  find_keys_updated_by held bundle =
      unique_after []
        (keys bundle.configs ++ keys_using (keys (or_else bundle.segments [])) held.configs)

-- The reason of an evaluation: the parser's, the evaluator's, or the client's own.
pub data ServerReason : Type 0 where
  parsed : Reason → ServerReason
  serving : ServingReason → ServerReason
  config_state_missing client_not_ready : ServerReason

pub record ServerEvaluation (F : Type 0) : Type 0 where
  pub key : Text
  pub value : JsValue F
  pub value_id : Option Text
  pub variation : Option ConfigValue.Variation
  pub is_default_value : Bool
  pub reason : ServerReason

abbrev pub variation_for : Option ServedVariation → Option ConfigValue.Variation
variation_for none = none
variation_for (some v) = some (record { id = v.id; name = v.name })

abbrev pub rule_id_of : Option RolloutShare → Option Text
rule_id_of none = none
rule_id_of (some share) = some share.rule_id

abbrev pub share_id_of : Option RolloutShare → Option Text
share_id_of none = none
share_id_of (some share) = some share.share_id

-- What the parser reads of the state of a config.
unfoldable pub state_for_parser : ConfigState → ConfigValue.ConfigState
state_for_parser state = record {
  type = state.type;
  value = state.value;
  value_id = state.value_id;
  variation = variation_for state.variation;
  rule_id = rule_id_of state.rollout_share;
  share_id = share_id_of state.rollout_share;
}

module _ {F V : Type 0} (env : Externals F V) (parsing : Parsing F)
    (context : Option (EvaluationContext F)) where
  abbrev pub reason_of : Bool → Reason → ServingReason → ServerReason
  reason_of used_default reason served = if used_default then parsed reason else serving served

  abbrev pub evaluation_from : Text → ParseResult F → ServingReason → ServerEvaluation F
  evaluation_from key result served = record {
    key = key;
    value = result.value_and_reason.parsed_value;
    value_id = result.value_and_reason.parsed_value_id;
    variation = result.variation;
    is_default_value = result.value_and_reason.used_default;
    reason = reason_of result.value_and_reason.used_default result.value_and_reason.reason served;
  }

  -- The value of `evaluationOf`, in the context that was admitted.
  unfoldable pub evaluation_of :
      Option Segments → Bool → Text → Option (Config F) → JsValue F → ServerEvaluation F
  unfolding state_for_parser
  evaluation_of segments ready key none default = record {
    key = key;
    value = default;
    value_id = none;
    variation = none;
    is_default_value = true;
    reason = if ready then config_state_missing else client_not_ready;
  }
  evaluation_of segments ready key (some config) default =
      let explanation = explain env context segments config in
      evaluation_from key
        (parse_config_value parsing (state_for_parser (served_config_state config explanation))
          default)
        explanation.reason

  -- `getAllConfigs`, of the bundle that the client holds; the keys asked for, if any are.
  abbrev pub is_asked_for : Option (List Text) → Text → Bool
  is_asked_for none key = true
  is_asked_for (some asked) key = includes asked key

  unfoldable pub states_of :
      Option Segments → Option (List Text) → Entries (Config F) → Entries ConfigState
  states_of segments asked [] = []
  states_of segments asked ((key, config) ∷ entries) =
      let others = states_of segments asked entries in
      if is_asked_for asked key
      then (key, evaluate env context segments config) ∷ others
      else others

  abbrev pub get_all_configs : Option (ConfigBundle F) → Option (List Text) → Entries ConfigState
  get_all_configs none asked = []
  get_all_configs (some held) asked = states_of held.segments asked held.configs
