-- ===== src/ConfigValue/Tests.antt =====
-- The parser on concrete configs.
use js_sdks.Common.{
  ◌≡◌, refl, true, none, some, ◌⊎◌, ℕ, codes, text_eq, parse_decimal, is_decimal_characters,
}
use js_sdks.Evaluator.Value.{num, null}
use js_sdks.ConfigValue.{
  JsValue, json, Parsing, ConfigState, invalid_number, parse_config_value, parse_value_and_reason,
  parse_present, parse_config_integer, parse_strict_number, type_of, is_numeric_native_type,
}
use js_sdks.ConfigValue.Outcome.{IsDefaultResult, IsConfigResult, parse_config_value-cases}

abbrev pub sample : Parsing ℕ
sample = record {
  number_of = λ s. parse_decimal 0 s;
  is_finite = λ n. true;
  trunc = λ n. n;
  parse_json = λ s. some null;
}

abbrev pub limit : ConfigState
limit = record {
  type = codes "integer";
  value = some (codes "42");
  value_id = some (codes "v1");
  variation = none;
  rule_id = some (codes "r1");
  share_id = none;
}

abbrev pub seven : JsValue ℕ
seven = json (num 7)

limit_value : (parse_config_value sample limit seven).value_and_reason.parsed_value ≡ json (num 42)
unfolding parse_config_value parse_value_and_reason parse_present parse_config_integer
    parse_strict_number type_of is_numeric_native_type text_eq parse_decimal is_decimal_characters
limit_value = refl

broken_reason :
    (parse_config_value sample
      (record limit { value = some (codes "4x") })
      seven).value_and_reason.reason
    ≡ invalid_number
unfolding parse_config_value parse_value_and_reason parse_present parse_config_integer
    parse_strict_number type_of is_numeric_native_type text_eq parse_decimal is_decimal_characters
broken_reason = refl

parse_config_value-cases_example :
    IsDefaultResult sample seven (parse_config_value sample limit seven)
    ⊎ IsConfigResult sample limit seven (parse_config_value sample limit seven)
parse_config_value-cases_example = parse_config_value-cases sample limit seven
