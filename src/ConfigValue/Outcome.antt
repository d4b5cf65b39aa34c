-- ===== src/ConfigValue/Outcome.antt =====
-- What a parser may return.
use js_sdks.Common.{
  ◌≡◌, ◌≢◌, refl, Bool, true, false, ◌&&◌, Option, none, some, [], ◌∷◌, Text, codes, text_eq,
  text_eq_iff, if◌then◌else◌, Bool-cases, if_true, if_false, Option-cases, inl, inr, ◌⊎◌, arith,
}
use js_sdks.Evaluator.Value.{Value, null, bool, num, str}
use js_sdks.ConfigValue.{
  JsValue, json, bigint, Parsing, ConfigState, Reason, found_match, type_mismatch, value_missing,
  invalid_number, invalid_json, invalid_boolean, ValueAndReason, ParseResult, type_of,
  json_shape_of, is_json_type_compatible, is_numeric_native_type, variation_of, kept, found, one_of,
  parse_json, parse_number, parse_boolean, parse_present, parse_option, default_result,
  config_result, parse_value_and_reason, parse_config_value,
}

and_left : (a b : Bool) → (a && b) ≡ true → a ≡ true
and_left a b h = ground arith

module _ {F : Type 0} (env : Parsing F) where
  -- The default value, with a reason that is not a match.
  pub record IsKept (default : JsValue F) (v : ValueAndReason F) : Type 0 where
    pub used : v.used_default ≡ true
    pub value : v.parsed_value ≡ default
    pub no_id : v.parsed_value_id ≡ none
    pub reason : v.reason ≢ found_match

  -- A value of the config, of the shape of the default value.
  pub record IsFound (state : ConfigState) (default : JsValue F) (v : ValueAndReason F)
      : Type 0 where
    pub not_used : v.used_default ≡ false
    pub shape : json_shape_of v.parsed_value ≡ json_shape_of default
    pub id : v.parsed_value_id ≡ state.value_id
    pub reason : v.reason ≡ found_match

  abbrev pub IsParsed : ConfigState → JsValue F → ValueAndReason F → Type 0
  IsParsed state default v = IsKept default v ⊎ IsFound state default v

  kept-IsParsed :
      (state : ConfigState) (default : JsValue F) (reason : Reason)
      → reason ≢ found_match
      → IsParsed state default (kept default reason)
  kept-IsParsed state default reason h =
      inl (record { used = refl; value = refl; no_id = refl; reason = h })

  found-IsParsed :
      (state : ConfigState) (default value : JsValue F)
      → json_shape_of value ≡ json_shape_of default
      → IsParsed state default (found state default value)
  found-IsParsed state default value h =
      inr (record { not_used = refl; shape = h; id = refl; reason = refl })

  shape_of_string :
      (default : JsValue F) (s : Text)
      → text_eq (type_of default) (codes "string") ≡ true
      → json_shape_of {F = F} (json (str s)) ≡ json_shape_of default
  unfolding json_shape_of type_of text_eq is_numeric_native_type
  shape_of_string (json (str t)) s h = refl
  shape_of_string _ s h = ground arith

  shape_of_boolean :
      (default : JsValue F) (b : Bool)
      → text_eq (type_of default) (codes "boolean") ≡ true
      → json_shape_of {F = F} (json (bool b)) ≡ json_shape_of default
  unfolding json_shape_of type_of text_eq is_numeric_native_type
  shape_of_boolean (json (bool t)) s h = refl
  shape_of_boolean _ s h = ground arith

  shape_of_number :
      (default : JsValue F) (n : F)
      → is_numeric_native_type (type_of default) ≡ true
      → json_shape_of (json (num n)) ≡ json_shape_of default
  unfolding json_shape_of type_of text_eq is_numeric_native_type
  shape_of_number (json (num n)) s h = refl
  shape_of_number (bigint n) s h = refl
  shape_of_number _ s h = ground arith

  shape_of_json :
      (default : JsValue F) (v : Value F)
      → is_json_type_compatible v default ≡ true
      → json_shape_of (json v) ≡ json_shape_of default
  unfolding is_json_type_compatible
  shape_of_json default null h = ground arith
  shape_of_json default v h = (text_eq_iff (json_shape_of (json v)) (json_shape_of default)).0 h

  parse_json-IsParsed :
      (state : ConfigState) (value : Text) (default : JsValue F)
      → IsParsed state default (parse_json env state value default)
  unfolding parse_json
  parse_json-IsParsed state value default =
      elim (Bool-cases (text_eq (type_of default) (codes "string"))) [
        | inl text ↦
            rw (text, parse_json)
              (found-IsParsed state default _ (shape_of_string default value text))
        | inr other ↦ elim (Option-cases (env.parse_json value)) [
          | inl throws ↦
              rw (other, throws, parse_json) (kept-IsParsed state default invalid_json (λ e. cc))
          | inr (v, parsed) ↦ elim (Bool-cases (is_json_type_compatible v default)) [
            | inl same ↦
                rw (other, parsed, same, parse_json)
                  (found-IsParsed state default (json v) (shape_of_json default v same))
            | inr differs ↦
                rw (other, parsed, differs, parse_json)
                  (kept-IsParsed state default type_mismatch (λ e. cc))
          ]
        ]
      ]

  parse_number-IsParsed :
      (state : ConfigState) (default : JsValue F) (n : Option F)
      → is_numeric_native_type (type_of default) ≡ true
      → IsParsed state default (parse_number env state default n)
  parse_number-IsParsed state default none h = kept-IsParsed state default invalid_number (λ e. cc)
  parse_number-IsParsed state default (some n) h =
      found-IsParsed state default (json (num n)) (shape_of_number default n h)

  parse_boolean-IsParsed :
      (state : ConfigState) (default : JsValue F) (b : Option Bool)
      → text_eq (type_of default) (codes "boolean") ≡ true
      → IsParsed state default (parse_boolean env state default b)
  parse_boolean-IsParsed state default none h =
      kept-IsParsed state default invalid_boolean (λ e. cc)
  parse_boolean-IsParsed state default (some b) h =
      found-IsParsed state default (json (bool b)) (shape_of_boolean default b h)

  abbrev numeric : JsValue F → Bool
  numeric default = is_numeric_native_type (type_of default)

  parse_string-IsParsed :
      (state : ConfigState) (value : Text) (default : JsValue F) (unreadable : Bool)
      → text_eq (type_of default) (codes "string") ≡ true
      → IsParsed state default (
          if unreadable then kept default type_mismatch else found state default (json (str value)))
  parse_string-IsParsed state value default true h =
      kept-IsParsed state default type_mismatch (λ e. cc)
  parse_string-IsParsed state value default false h =
      found-IsParsed state default _ (shape_of_string default value h)

  -- The tests of `parse_present` on the types of the config and of the default value.
  abbrev for_boolean : ConfigState → JsValue F → Bool
  for_boolean state default =
      text_eq (type_of default) (codes "boolean")
      && one_of (codes "boolean" ∷ codes "string" ∷ codes "enum" ∷ []) state.type

  abbrev for_integer : ConfigState → JsValue F → Bool
  for_integer state default = numeric default && text_eq state.type (codes "integer")

  abbrev for_float : ConfigState → JsValue F → Bool
  for_float state default =
      numeric default && one_of (codes "float" ∷ codes "enum" ∷ codes "string" ∷ []) state.type

  parse_present-IsParsed :
      (state : ConfigState) (value : Text) (default : JsValue F)
      → IsParsed state default (parse_present env state value default)
  unfolding parse_present
  parse_present-IsParsed state value default =
      elim (Bool-cases (text_eq state.type (codes "json"))) [
        | inl e ↦ rw e (parse_json-IsParsed state value default)
        | inr e ↦ rw e (elim (Bool-cases (text_eq (type_of default) (codes "string"))) [
          | inl text ↦ rw text (parse_string-IsParsed state value default _ text)
          | inr other ↦ rw other (elim (Bool-cases (for_boolean state default)) [
            | inl b ↦ rw b (parse_boolean-IsParsed state default _ (and_left _ _ b))
            | inr b ↦ rw b (elim (Bool-cases (for_integer state default)) [
              | inl i ↦ rw i (parse_number-IsParsed state default _ (and_left _ _ i))
              | inr i ↦ rw i (elim (Bool-cases (for_float state default)) [
                | inl f ↦ rw f (parse_number-IsParsed state default _ (and_left _ _ f))
                | inr f ↦ rw f (kept-IsParsed state default type_mismatch (λ e. cc))
              ])
            ])
          ])
        ])
      ]

  parse_option-IsParsed :
      (state : ConfigState) (value : Option Text) (default : JsValue F)
      → IsParsed state default (parse_option env state value default)
  parse_option-IsParsed state none default = kept-IsParsed state default value_missing (λ e. cc)
  parse_option-IsParsed state (some []) default =
      kept-IsParsed state default value_missing (λ e. cc)
  parse_option-IsParsed state (some (c ∷ s)) default = parse_present-IsParsed state (c ∷ s) default

  parse_value_and_reason-IsParsed :
      (state : ConfigState) (default : JsValue F)
      → IsParsed state default (parse_value_and_reason env state default)
  unfolding parse_value_and_reason
  parse_value_and_reason-IsParsed state default = parse_option-IsParsed state state.value default

  -- What goes with a default value: nothing of the config's.
  abbrev pub IsDefaultResult : JsValue F → ParseResult F → Type 0
  IsDefaultResult default r =
      IsKept default r.value_and_reason
      × (r.variation ≡ none)
      × (r.rule_id ≡ none)
      × (r.share_id ≡ none)

  -- What goes with the config's value: its variation, rule and share.
  abbrev pub IsConfigResult : ConfigState → JsValue F → ParseResult F → Type 0
  IsConfigResult state default r =
      IsFound state default r.value_and_reason
      × (r.variation ≡ variation_of state)
      × (r.rule_id ≡ state.rule_id)
      × (r.share_id ≡ state.share_id)

  result-default :
      (state : ConfigState) (default : JsValue F)
      → (parse_value_and_reason env state default).used_default ≡ true
      → parse_config_value env state default
        ≡ default_result (parse_value_and_reason env state default)
  unfolding parse_config_value
  result-default state default h = if_true _ _ _ h

  result-config :
      (state : ConfigState) (default : JsValue F)
      → (parse_value_and_reason env state default).used_default ≡ false
      → parse_config_value env state default
        ≡ config_result state (parse_value_and_reason env state default)
  unfolding parse_config_value
  result-config state default h = if_false _ _ _ h

  result-cases :
      (state : ConfigState) (default : JsValue F)
      → IsParsed state default (parse_value_and_reason env state default)
      → IsDefaultResult default (parse_config_value env state default)
        ⊎ IsConfigResult state default (parse_config_value env state default)
  result-cases state default (inl k) =
      inl (rw (result-default state default k.used) (k, refl, refl, refl))
  result-cases state default (inr f) =
      inr (rw (result-config state default f.not_used) (f, refl, refl, refl))

  -- The parser of a config's value returns either the default value, with a reason other than
  -- `found-match` and no value id, variation, rule or share of the config; or a value of the same
  -- JSON shape as the default value, with the reason `found-match` and the value id, variation, rule
  -- and share of the config.
  pub parse_config_value-cases :
      (state : ConfigState) (default : JsValue F)
      → IsDefaultResult default (parse_config_value env state default)
        ⊎ IsConfigResult state default (parse_config_value env state default)
  parse_config_value-cases state default =
      result-cases state default (parse_value_and_reason-IsParsed state default)
