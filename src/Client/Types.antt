-- ===== src/Client/Types.antt =====
-- What the client keeps and gives out: packages/js-client-core/src/types.ts,
-- packages/shared/src/types.ts
use js_sdks.Common.{Bool, Option, List, Text, Entries}
use js_sdks.Evaluator.Value.{Fields}
use js_sdks.ContextKind.{Kind}
use js_sdks.ConfigValue.{JsValue, ConfigState, Variation, Reason}

pub record Context (F : Type 0) : Type 0 where
  pub kind : Kind
  pub id : Option Text
  pub name : Option Text
  pub traits : Option (Fields F)

pub data SetKind : Type 0 where
  full delta : SetKind

pub record ConfigSet : Type 0 where
  pub environment_id : Text
  pub project_id : Text
  pub configs : Entries ConfigState
  pub kind : SetKind

pub data ConnectAction : Type 0 where
  initialization context_update network_resume : ConnectAction

-- A reason that a parser of values gives, or one of the client.
pub data EvaluationReason : Type 0 where
  parsed : Reason → EvaluationReason
  config_state_missing client_not_ready cached : EvaluationReason

pub record Evaluation (F : Type 0) : Type 0 where
  pub key : Text
  pub value : JsValue F
  pub value_id : Option Text
  pub variation : Option Variation
  pub is_default_value : Bool
  pub reason : EvaluationReason
  pub context : Option (Context F)

-- What `evaluatedConfig` of the telemetry is given.
pub record EvaluatedConfig (F : Type 0) : Type 0 where
  pub context_id : Option Text
  pub type : Option Text
  pub key : Text
  pub default_value : JsValue F
  pub requested_type : Text
  pub evaluated_value : JsValue F
  pub evaluated_value_id : Option Text
  pub used_default : Bool
  pub evaluation_reason : EvaluationReason
  pub rule_id : Option Text
  pub share_id : Option Text
  pub variation_id : Option Text

-- The events of `ClientEvents`.
pub data Event (F : Type 0) : Type 0 where
  configs_updated : List Text → List Text → Event F
  client_ready : ConnectAction → Event F
  context_updated : Option (Context F) → Event F
  config_evaluated : Evaluation F → Event F
  connection_error : Text → Event F
  cached_values_loaded : Event F
