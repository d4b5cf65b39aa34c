-- ===== src/Client/Offline.antt =====
-- The values of the offline mode: packages/shared/src/native-values.ts,
-- packages/js-client-core/src/native-values.ts and packages/js-client-core/src/OfflineTransport.ts
pub mod Plain
pub mod ReadBack
use js_sdks.Common.{
  ℕ, ◌-◌, Bool, true, false, not, ◌&&◌, Option, none, some, List, [], ◌∷◌, ◌++◌, Text, codes,
  Entries, is_blank, starts_with, drop, length, parse_decimal, repeat, if◌then◌else◌, ◌==◌,
  Fallible, returns, throws, ◌>>=◌,
}
use js_sdks.Evaluator.Value.{
  Value, Items, Fields, null, bool, num, str, arr, obj, nil, cons, end, field, text_of_bool,
}
use js_sdks.ConfigValue.{
  JsValue, json, bigint, instance_of, function, undefined, Parsing, ConfigState,
}
use js_sdks.Client.Types.{ConfigSet, full}
use js_sdks.Client.Plan.{OfflineSource, in_code_defaults, offline_values, rejected}

-- The functions of JavaScript that write values.
pub record Writing (F : Type 0) : Type 0 where
  pub parsing : Parsing F
  pub is_integer : F → Bool
  pub is_safe_integer : F → Bool
  pub text_of : F → Text
  pub stringify : Value F → Text

pub record EncodedNativeValue : Type 0 where
  pub type : Text
  pub value : Text

-- `indexOf("e-")` with the two parts around it.
unfoldable pub split_exponent : Text → Option (Text × Text)
unfolding starts_with
split_exponent [] = none
split_exponent (c ∷ s) =
    let rest = split_exponent s in
    if starts_with (codes "e-") (c ∷ s)
    then some ([], drop 1 s)
    else (elim rest [ none ↦ none | some parts ↦ some (c ∷ parts.0, parts.1) ])

-- The parts before and after the point, if there is one.
unfoldable pub until_point : Text → Text × Text
until_point [] = ([], [])
until_point (c ∷ s) =
    let rest = until_point s in if c == b'.' then ([], s) else (c ∷ rest.0, rest.1)

abbrev pub plain_decimal : Text → Text × Text → Text → Text
plain_decimal sign (integer_digits, fraction_digits) exponent =
    sign
    ++ codes "0."
    ++ repeat (parse_decimal 0 exponent - length integer_digits) b'0'
    ++ integer_digits
    ++ fraction_digits

abbrev pub unsigned : Text → Text
unsigned s = if starts_with (codes "-") s then drop 1 s else s

abbrev pub sign_of : Text → Text
sign_of s = if starts_with (codes "-") s then codes "-" else []

abbrev pub without_exponent : Text → Option (Text × Text) → Text
without_exponent s none = s
without_exponent s (some (digits, exponent)) =
    plain_decimal (sign_of digits) (until_point (unsigned digits)) exponent

-- `toPlainDecimal` of the text of a number.
unfoldable pub to_plain_decimal : Text → Text
unfolding split_exponent until_point repeat parse_decimal starts_with
to_plain_decimal s = without_exponent s (split_exponent s)

module _ {F : Type 0} (env : Writing F) where
  -- `encodeNumber`.
  unfoldable pub encode_number : F → Fallible EncodedNativeValue
  unfolding to_plain_decimal
  encode_number n =
      if not (env.parsing.is_finite n)
      then throws
      else if env.is_integer n
      then (if not (env.is_safe_integer n)
          then throws
          else returns (record { type = codes "integer"; value = env.text_of n }))
      else returns (record { type = codes "float"; value = to_plain_decimal (env.text_of n) })

  -- `assertJsonContents`: what is not JSON cannot stand in a value of JSON, but numbers may be infinite.
  mutual
    pub is_json_contents : Value F → Bool
    is_json_contents (num n) = env.parsing.is_finite n
    is_json_contents (arr vs) = are_json_contents vs
    is_json_contents (obj fs) = are_json_properties fs
    is_json_contents v = true

    are_json_contents : Items F → Bool
    are_json_contents nil = true
    are_json_contents (cons v vs) = is_json_contents v && are_json_contents vs

    are_json_properties : Fields F → Bool
    are_json_properties end = true
    are_json_properties (field key v rest) = is_json_contents v && are_json_properties rest

  abbrev pub encode_json : Value F → Fallible EncodedNativeValue
  encode_json v =
      if is_json_contents v
      then returns (record { type = codes "json"; value = env.stringify v })
      else throws

  unfoldable pub encode : JsValue F → Fallible EncodedNativeValue
  unfolding encode_number
  encode (json (bool b)) = returns (record { type = codes "boolean"; value = text_of_bool b })
  encode (json (num n)) = encode_number n
  encode (json (str s)) = returns (record { type = codes "string"; value = s })
  encode (json (arr vs)) = encode_json (arr vs)
  encode (json (obj fs)) = encode_json (obj fs)
  encode v = throws

  unfoldable pub encode_native_value : Text → JsValue F → Fallible EncodedNativeValue
  unfolding encode
  encode_native_value key v = if is_blank key then throws else encode v

  -- `nativeValueConfigState`, without a value id.
  abbrev pub state_of : EncodedNativeValue → ConfigState
  state_of e = record {
    type = e.type;
    value = some e.value;
    value_id = none;
    variation = none;
    rule_id = none;
    share_id = none;
  }

  unfoldable pub encode_offline_values : Entries (JsValue F) → Fallible (Entries ConfigState)
  unfolding encode_native_value
  encode_offline_values [] = returns []
  encode_offline_values ((key, v) ∷ values) =
      let rest = encode_offline_values values in
      encode_native_value key v >>= λ e. rest >>= λ others. returns ((key, state_of e) ∷ others)

  -- `loadOfflineConfigs`.
  unfoldable pub load_offline_configs :
      OfflineSource (Entries (JsValue F)) → Fallible (Entries ConfigState)
  unfolding encode_offline_values
  load_offline_configs in_code_defaults = returns []
  load_offline_configs (offline_values values) = encode_offline_values values
  load_offline_configs (rejected mode) = throws

  -- `connect`: the set that the handlers of `configSetReceived` get.
  unfoldable pub connect_offline : OfflineSource (Entries (JsValue F)) → Fallible ConfigSet
  unfolding load_offline_configs
  connect_offline source = load_offline_configs source >>= λ configs. returns (record {
    environment_id = codes "offline";
    project_id = codes "offline";
    configs = configs;
    kind = full;
  })
