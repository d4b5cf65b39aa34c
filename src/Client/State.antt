-- ===== src/Client/State.antt =====
-- The state of the client and its operations:
-- packages/js-client-core/src/DefaultConfigDirectorClient.ts
-- A part of an asynchronous method up to an `await`, and after it, is an operation of its own.
use js_sdks.Common.{
  ℕ, Bool, true, false, Option, none, some, List, [], ◌∷◌, ◌++◌, Text, lookup, if◌then◌else◌,
}
use js_sdks.ConfigValue.{
  JsValue, json, function, undefined, ConfigState, Variation, Reason, found_match, ParseResult,
  get_requested_type,
}
use js_sdks.Evaluator.Value.{null}
use js_sdks.Client.Types.{
  Context, ConfigSet, ConnectAction, EvaluationReason, parsed, config_state_missing,
  client_not_ready, cached, Evaluation, EvaluatedConfig, Event,
}
use js_sdks.Client.Watchers.{Watchers}

-- What the client does to the rest of the program: it calls the handlers of an event, or of a config,
-- the telemetry, the transport and the store of cached values, or sets a timer for an event.
pub data Output (F : Type 0) : Type 0 where
  emitted : Event F → Output F
  called : ℕ → JsValue F → Output F
  scheduled : Evaluation F → Output F
  reported : EvaluatedConfig F → Output F
  invalid_context : Text → Output F
  telemetry_context : Option (Context F) → Output F
  telemetry_closed : Output F
  transport_connect : Option (Context F) → ConnectAction → Output F
  transport_closed : Output F
  adoption_started : Output F
  keep_values : Option (Context F) → ConfigSet → Output F

-- The resolver of the newest `readyPromise`, with the caller that its continuation reads.
pub record Deferred : Type 0 where
  pub caller : ConnectAction
  pub settled : Bool

-- The fields of the client. `connects` tells if its plan is to connect, `stores` if it has a store of
-- cached values, and `tasks` are the continuations of the ready promises that have been resolved,
-- with the flag `cancelled`.
pub record Client (F : Type 0) : Type 0 where
  pub connects : Bool
  pub stores : Bool
  pub config_set : Option ConfigSet
  pub watchers : Watchers (JsValue F)
  pub ready : Bool
  pub initializing : Bool
  pub has_received_config_set : Bool
  pub serving_cached_values : Bool
  pub cached_values_adoption_started : Bool
  pub current_context : Option (Context F)
  pub submitted_context : Option (Context F)
  pub ready_resolve : Option Deferred
  pub tasks : List (ConnectAction × Bool)
  pub outputs : List (Output F)

-- The calls that a handler may make on the client.
pub data Call (F : Type 0) : Type 0 where
  watch_call : Text → JsValue F → ℕ → Call F
  unwatch_call : Text → Option ℕ → Call F
  evaluate_call : Text → JsValue F → Call F
  unwatch_all_call clear_call pause_call close_call : Call F

-- What the handlers of the application do: one of `watch`, given a value, and those of an event.
pub record Reactions (F : Type 0) : Type 0 where
  pub on_value : ℕ → JsValue F → List (Call F)
  pub on_event : Event F → List (Call F)

abbrev pub config_state : Option ConfigSet → Text → Option ConfigState
config_state none key = none
config_state (some set) key = lookup key set.configs

abbrev pub variation_id : Option Variation → Option Text
variation_id none = none
variation_id (some v) = some v.id

abbrev pub served : Bool → Reason → EvaluationReason
served true found_match = cached
served serving reason = parsed reason

abbrev pub default_reason : Bool → EvaluationReason
default_reason ready = if ready then config_state_missing else client_not_ready

module _ {F : Type 0} where
  abbrev pub put : Output F → Client F → Client F
  put output c = record c { outputs = c.outputs ++ output ∷ [] }

  abbrev pub context_id : Option (Context F) → Option Text
  context_id none = none
  context_id (some context) = context.id

  unfoldable pub served_reason : Reason → Client F → EvaluationReason
  served_reason reason c = served c.serving_cached_values reason

  -- `validateDefaultValue` accepts the value.
  unfoldable pub is_valid_default : JsValue F → Bool
  is_valid_default undefined = false
  is_valid_default (json null) = false
  is_valid_default (function name) = false
  is_valid_default v = true

  abbrev pub missing_evaluation : Text → JsValue F → Client F → Evaluation F
  missing_evaluation key default c = record {
    key = key;
    value = default;
    value_id = none;
    variation = none;
    is_default_value = true;
    reason = default_reason c.ready;
    context = c.current_context;
  }

  abbrev pub missing_report : Text → JsValue F → Client F → EvaluatedConfig F
  missing_report key default c = record {
    context_id = context_id c.current_context;
    type = none;
    key = key;
    default_value = default;
    requested_type = get_requested_type default;
    evaluated_value = default;
    evaluated_value_id = none;
    used_default = true;
    evaluation_reason = default_reason c.ready;
    rule_id = none;
    share_id = none;
    variation_id = none;
  }

  abbrev pub found_evaluation : Text → ParseResult F → Client F → Evaluation F
  found_evaluation key result c = record {
    key = key;
    value = result.value_and_reason.parsed_value;
    value_id = result.value_and_reason.parsed_value_id;
    variation = result.variation;
    is_default_value = result.value_and_reason.used_default;
    reason = served_reason result.value_and_reason.reason c;
    context = c.current_context;
  }

  abbrev pub found_report :
      Text → JsValue F → ConfigState → ParseResult F → Client F → EvaluatedConfig F
  found_report key default state result c = record {
    context_id = context_id c.current_context;
    type = some state.type;
    key = key;
    default_value = default;
    requested_type = result.value_and_reason.requested_type;
    evaluated_value = result.value_and_reason.parsed_value;
    evaluated_value_id = result.value_and_reason.parsed_value_id;
    used_default = result.value_and_reason.used_default;
    evaluation_reason = served_reason result.value_and_reason.reason c;
    rule_id = result.rule_id;
    share_id = result.share_id;
    variation_id = variation_id result.variation;
  }
