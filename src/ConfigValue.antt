-- ===== src/ConfigValue.antt =====
-- The value of a config as the type of its default value: packages/shared/src/value-parser.ts
pub mod Outcome
pub mod Tests
use js_sdks.Common.{
  ℕ, Bool, true, false, not, ◌&&◌, ◌||◌, Option, none, some, List, [], ◌∷◌, ◌++◌, Text, codes,
  text_eq, includes, lower, is_decimal_characters, if◌then◌else◌,
}
use js_sdks.Evaluator.Value.{Value, null, bool, num, str, arr, obj}

-- A JavaScript value: one that JSON has, or another. An instance is an object of a class, by the
-- name of its constructor.
pub data JsValue (F : Type 0) : Type 0 where
  json : Value F → JsValue F
  bigint : ℕ → JsValue F
  instance_of : Text → JsValue F
  function : Text → JsValue F
  undefined : JsValue F

-- The functions of JavaScript that parse texts, where a text that `JSON.parse` throws on is `none`.
pub record Parsing (F : Type 0) : Type 0 where
  pub number_of : Text → F
  pub is_finite : F → Bool
  pub trunc : F → F
  pub parse_json : Text → Option (Value F)

pub record Variation : Type 0 where
  pub id : Text
  pub name : Option Text

-- A `ConfigState`: a property that is missing or null is `none`.
pub record ConfigState : Type 0 where
  pub type : Text
  pub value : Option Text
  pub value_id : Option Text
  pub variation : Option Variation
  pub rule_id : Option Text
  pub share_id : Option Text

-- The reasons of `EvaluationReason` that a parser gives.
pub data Reason : Type 0 where
  found_match type_mismatch value_missing invalid_number invalid_json invalid_boolean : Reason

pub record ValueAndReason (F : Type 0) : Type 0 where
  pub parsed_value : JsValue F
  pub parsed_value_id : Option Text
  pub requested_type : Text
  pub used_default : Bool
  pub reason : Reason

pub record ParseResult (F : Type 0) : Type 0 where
  pub value_and_reason : ValueAndReason F
  pub variation : Option Variation
  pub rule_id : Option Text
  pub share_id : Option Text

unfoldable pub is_numeric_native_type : Text → Bool
is_numeric_native_type type = text_eq type (codes "number") || text_eq type (codes "bigint")

abbrev pub non_empty : Option Text → Option Text
non_empty none = none
non_empty (some []) = none
non_empty (some (c ∷ s)) = some (c ∷ s)

-- A name that is empty is left out.
unfoldable pub variation_of : ConfigState → Option Variation
variation_of state = elim state.variation [
  | none ↦ none
  | some v ↦ some (record { id = v.id; name = non_empty v.name })
]

module _ {F : Type 0} where
  -- `typeof`.
  unfoldable pub type_of : JsValue F → Text
  type_of (json (str s)) = codes "string"
  type_of (json (num n)) = codes "number"
  type_of (json (bool b)) = codes "boolean"
  type_of (json v) = codes "object"
  type_of (bigint n) = codes "bigint"
  type_of (instance_of name) = codes "object"
  type_of (function name) = codes "function"
  type_of undefined = codes "undefined"

  -- The constructor of null cannot be read, and the error is caught.
  unfoldable pub get_requested_type : JsValue F → Text
  unfolding type_of
  get_requested_type (json (arr vs)) = codes "Array"
  get_requested_type (json (obj fs)) = codes "Object"
  get_requested_type (instance_of name) = name
  get_requested_type (function []) = codes "function"
  get_requested_type (function (c ∷ name)) = codes "function: " ++ c ∷ name
  get_requested_type v = type_of v

  unfoldable pub json_shape_of : JsValue F → Text
  unfolding type_of
  json_shape_of (json (arr vs)) = codes "array"
  json_shape_of (bigint n) = codes "number"
  json_shape_of v = type_of v

  unfoldable pub is_json_type_compatible : Value F → JsValue F → Bool
  unfolding json_shape_of
  is_json_type_compatible null default = false
  is_json_type_compatible v default = text_eq (json_shape_of (json v)) (json_shape_of default)

  -- The default value, for a reason.
  abbrev pub kept : JsValue F → Reason → ValueAndReason F
  kept default reason = record {
    parsed_value = default;
    parsed_value_id = none;
    requested_type = get_requested_type default;
    used_default = true;
    reason = reason;
  }

  -- The config's own value.
  abbrev pub found : ConfigState → JsValue F → JsValue F → ValueAndReason F
  found state default value = record {
    parsed_value = value;
    parsed_value_id = state.value_id;
    requested_type = get_requested_type default;
    used_default = false;
    reason = found_match;
  }

-- `parseConfigBoolean`.
unfoldable pub parse_config_boolean : Text → Option Bool
parse_config_boolean [] = none
parse_config_boolean (c ∷ s) =
    let lower_value = lower (c ∷ s) in
    if not (text_eq lower_value (codes "true")) && not (text_eq lower_value (codes "false"))
    then none
    else some (text_eq lower_value (codes "true"))

module _ {F : Type 0} where
  abbrev pub default_result : ValueAndReason F → ParseResult F
  default_result parsed = record {
    value_and_reason = parsed;
    variation = none;
    rule_id = none;
    share_id = none;
  }

  abbrev pub config_result : ConfigState → ValueAndReason F → ParseResult F
  config_result state parsed = record {
    value_and_reason = parsed;
    variation = variation_of state;
    rule_id = state.rule_id;
    share_id = state.share_id;
  }

abbrev pub one_of : List Text → Text → Bool
one_of names type = includes names type

module _ {F : Type 0} (env : Parsing F) where
  unfoldable pub parse_strict_number : Text → Option F
  parse_strict_number [] = none
  parse_strict_number (c ∷ s) =
      if is_decimal_characters (c ∷ s)
      then if env.is_finite (env.number_of (c ∷ s)) then some (env.number_of (c ∷ s)) else none
      else none

  unfoldable pub parse_config_integer : Text → Option F
  unfolding parse_strict_number
  parse_config_integer value = elim (parse_strict_number value) [
    | none ↦ none
    | some n ↦ some (env.trunc n)
  ]

  unfoldable pub parse_json : ConfigState → Text → JsValue F → ValueAndReason F
  parse_json state value default =
      if text_eq (type_of default) (codes "string")
      then found state default (json (str value))
      else (elim (env.parse_json value) [
        | none ↦ kept default invalid_json
        | some v ↦
            if is_json_type_compatible v default
            then found state default (json v)
            else kept default type_mismatch
      ])

  abbrev pub parse_number : ConfigState → JsValue F → Option F → ValueAndReason F
  parse_number state default none = kept default invalid_number
  parse_number state default (some n) = found state default (json (num n))

  abbrev pub parse_boolean : ConfigState → JsValue F → Option Bool → ValueAndReason F
  parse_boolean state default none = kept default invalid_boolean
  parse_boolean state default (some b) = found state default (json (bool b))

  -- `parseValueAndReason` after the check that the value is not missing.
  unfoldable pub parse_present : ConfigState → Text → JsValue F → ValueAndReason F
  parse_present state value default =
      if text_eq state.type (codes "json")
      then parse_json state value default
      else if text_eq (type_of default) (codes "string")
      then (if one_of (codes "boolean" ∷ codes "integer" ∷ codes "float" ∷ []) state.type
          then kept default type_mismatch
          else found state default (json (str value)))
      else if text_eq (type_of default) (codes "boolean")
          && one_of (codes "boolean" ∷ codes "string" ∷ codes "enum" ∷ []) state.type
      then parse_boolean state default (parse_config_boolean value)
      else if is_numeric_native_type (type_of default) && text_eq state.type (codes "integer")
      then parse_number state default (parse_config_integer value)
      else if is_numeric_native_type (type_of default)
          && one_of (codes "float" ∷ codes "enum" ∷ codes "string" ∷ []) state.type
      then parse_number state default (parse_strict_number value)
      else kept default type_mismatch

  -- A value that is missing or empty, or one to parse.
  abbrev pub parse_option : ConfigState → Option Text → JsValue F → ValueAndReason F
  parse_option state none default = kept default value_missing
  parse_option state (some []) default = kept default value_missing
  parse_option state (some (c ∷ s)) default = parse_present state (c ∷ s) default

  unfoldable pub parse_value_and_reason : ConfigState → JsValue F → ValueAndReason F
  parse_value_and_reason state default = parse_option state state.value default

  unfoldable pub parse_config_value : ConfigState → JsValue F → ParseResult F
  parse_config_value state default =
      let parsed = parse_value_and_reason state default in
      if parsed.used_default then default_result parsed else config_result state parsed
