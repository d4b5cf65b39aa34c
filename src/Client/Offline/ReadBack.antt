-- ===== src/Client/Offline/ReadBack.antt =====
-- Values of the offline mode read by the parser.
use js_sdks.Common.{
  ◌≡◌, refl, sym, ap, ◌∙◌, subst, ◌⊎◌, inl, inr, Bool, true, false, not, some, ◌∷◌, ◌++◌, ℕ, Text,
  codes, text_eq, text_eq_refl, includes, lower, is_decimal_characters, is_blank, if◌then◌else◌,
  Fallible, returns, throws, returns-injective,
}
use js_sdks.Evaluator.Value.{Value, null, bool, num, str, arr, obj, text_of_bool}
use js_sdks.ConfigValue.{
  JsValue, json, type_of, json_shape_of, found_match, is_json_type_compatible,
  is_numeric_native_type, parse_config_value, parse_value_and_reason, parse_present,
  parse_config_boolean, parse_config_integer, parse_strict_number, parse_json,
}
use js_sdks.Client.Offline.{
  Writing, EncodedNativeValue, encode_number, encode_json, encode, encode_native_value,
  is_json_contents, state_of, to_plain_decimal,
}
use js_sdks.Client.Offline.Plain.{
  Scientific, IsScientific, ArePlaces, lacks_e, sign, scientific_text, places, places-ArePlaces,
  to_plain_decimal-scientific_text, to_plain_decimal_of_lacking,
  to_plain_decimal-is_decimal_characters,
}

not_refused :
    (refused : Bool) (m : Fallible EncodedNativeValue) (e : EncodedNativeValue)
    → (if refused then throws else m) ≡ returns e
    → m ≡ returns e
not_refused true m e h = cc
not_refused false m e h = h

-- What a number that is accepted is written as.
abbrev IsEncodedNumber : Bool → Bool → Text → Text → Text → Text → Type 0
IsEncodedNumber finite whole s t type value =
    (finite ≡ true)
    × (((type ≡ codes "integer") × (value ≡ s) × (whole ≡ true))
        ⊎ ((type ≡ codes "float") × (value ≡ t)))

encoded-IsEncodedNumber :
    (finite whole safe : Bool) (s t : Text) (e : EncodedNativeValue)
    → (if not finite
        then throws
        else if whole
        then (if not safe then throws else returns (record { type = codes "integer"; value = s }))
        else returns (record { type = codes "float"; value = t }))
      ≡ returns e
    → IsEncodedNumber finite whole s t e.type e.value
encoded-IsEncodedNumber false whole safe s t e h = cc
encoded-IsEncodedNumber true true false s t e h = cc
encoded-IsEncodedNumber true true true s t e h =
    let same = sym (returns-injective _ _ h) in
    (
      refl,
      inl (
        ap (λ (x : EncodedNativeValue). x.type) same,
        ap (λ (x : EncodedNativeValue). x.value) same,
        refl,
      ),
    )
encoded-IsEncodedNumber true false safe s t e h =
    let same = sym (returns-injective _ _ h) in
    (
      refl,
      inr (
        ap (λ (x : EncodedNativeValue). x.type) same,
        ap (λ (x : EncodedNativeValue). x.value) same,
      ),
    )

encoded_json :
    (accepted : Bool) (s : Text) (e : EncodedNativeValue)
    → (if accepted then returns (record { type = codes "json"; value = s }) else throws) ≡ returns e
    → (e.type ≡ codes "json") × (e.value ≡ s)
encoded_json true s e h =
    let same = sym (returns-injective _ _ h) in
    (ap (λ (x : EncodedNativeValue). x.type) same, ap (λ (x : EncodedNativeValue). x.value) same)
encoded_json false s e h = cc

module _ {F : Type 0} (env : Writing F) where
  -- What is documented of `String`, for a number: `Number` reads the text as the number, whose units are
  -- those of decimal numbers, and the text has no exponent or is written with a negative one; and a whole
  -- number is its own truncation.
  pub record IsWritten (n : F) : Type 0 where
    pub read_back : env.parsing.number_of (env.text_of n) ≡ n
    pub decimal : is_decimal_characters (env.text_of n) ≡ true
    pub form :
        (lacks_e (env.text_of n) ≡ true)
        ⊎ ((r : Scientific) × IsScientific r × (env.text_of n ≡ scientific_text r))
    pub whole : (env.is_integer n ≡ false) ⊎ (env.parsing.trunc n ≡ n)

  -- What is documented of `Number`: it reads a decimal by its digits and the place of its point, so that a
  -- text with an exponent is read as the text without one that has the same digits in their places.
  abbrev pub IsPositional : Type 0
  IsPositional =
      (r : Scientific) (fraction : Text)
      → IsScientific r
      → ArePlaces r fraction
      → env.parsing.number_of (sign r.negative ++ codes "0." ++ fraction)
        ≡ env.parsing.number_of (scientific_text r)

  -- What is documented of `String` and `JSON`, for a value.
  abbrev pub IsDocumented : Value F → Type 0
  IsDocumented (num n) = IsWritten n
  IsDocumented (arr vs) = env.parsing.parse_json (env.stringify (arr vs)) ≡ some (arr vs)
  IsDocumented (obj fs) = env.parsing.parse_json (env.stringify (obj fs)) ≡ some (obj fs)
  IsDocumented v = Unit

  -- The parser gives the value, for a default value of the same type.
  abbrev pub IsRead : JsValue F → Value F → EncodedNativeValue → Type 0
  IsRead default v e =
      let result = (parse_config_value env.parsing (state_of env e) default).value_and_reason in
      (result.parsed_value ≡ json v) × (result.used_default ≡ false) × (result.reason ≡ found_match)

  bool-IsRead :
      (default : JsValue F) (b : Bool)
      → type_of default ≡ codes "boolean"
      → IsRead default (bool b) (record { type = codes "boolean"; value = text_of_bool b })
  unfolding parse_config_value parse_value_and_reason parse_present parse_config_boolean text_eq
      includes lower
  bool-IsRead default true h = rw h (refl, refl, refl)
  bool-IsRead default false h = rw h (refl, refl, refl)

  string-IsRead :
      (default : JsValue F) (c : ℕ) (s : Text)
      → type_of default ≡ codes "string"
      → IsRead default (str (c ∷ s)) (record { type = codes "string"; value = c ∷ s })
  unfolding parse_config_value parse_value_and_reason parse_present text_eq includes
  string-IsRead default c s h = rw h (refl, refl, refl)

  parse_strict_number_of :
      (n : F) (c : ℕ) (s : Text)
      → is_decimal_characters (c ∷ s) ≡ true
      → env.parsing.number_of (c ∷ s) ≡ n
      → env.parsing.is_finite n ≡ true
      → parse_strict_number env.parsing (c ∷ s) ≡ some n
  unfolding parse_strict_number
  parse_strict_number_of n c s decimal number finite = rw (decimal, number, finite) refl

  parse_config_integer_of :
      (n : F) (c : ℕ) (s : Text)
      → is_decimal_characters (c ∷ s) ≡ true
      → env.parsing.number_of (c ∷ s) ≡ n
      → env.parsing.is_finite n ≡ true
      → env.parsing.trunc n ≡ n
      → parse_config_integer env.parsing (c ∷ s) ≡ some n
  unfolding parse_config_integer
  parse_config_integer_of n c s decimal number finite whole =
      rw (parse_config_integer, decimal, number, finite, whole) refl

  integer-IsRead :
      (default : JsValue F) (n : F) (c : ℕ) (s : Text)
      → type_of default ≡ codes "number"
      → is_decimal_characters (c ∷ s) ≡ true
      → env.parsing.number_of (c ∷ s) ≡ n
      → env.parsing.is_finite n ≡ true
      → env.parsing.trunc n ≡ n
      → IsRead default (num n) (record { type = codes "integer"; value = c ∷ s })
  unfolding parse_config_value parse_value_and_reason parse_present text_eq includes
      is_numeric_native_type
  integer-IsRead default n c s h decimal number finite whole =
      rw (h, parse_config_integer_of n c s decimal number finite whole) (refl, refl, refl)

  float-IsRead :
      (default : JsValue F) (n : F) (c : ℕ) (s : Text)
      → type_of default ≡ codes "number"
      → is_decimal_characters (c ∷ s) ≡ true
      → env.parsing.number_of (c ∷ s) ≡ n
      → env.parsing.is_finite n ≡ true
      → IsRead default (num n) (record { type = codes "float"; value = c ∷ s })
  unfolding parse_config_value parse_value_and_reason parse_present text_eq includes
      is_numeric_native_type
  float-IsRead default n c s h decimal number finite =
      rw (h, parse_strict_number_of n c s decimal number finite) (refl, refl, refl)

  json-IsRead :
      (default : JsValue F) (v : Value F) (c : ℕ) (s : Text)
      → type_of default ≡ codes "object"
      → is_json_type_compatible v default ≡ true
      → env.parsing.parse_json (c ∷ s) ≡ some v
      → IsRead default v (record { type = codes "json"; value = c ∷ s })
  unfolding parse_config_value parse_value_and_reason parse_present parse_json text_eq
  json-IsRead default v c s h compatible parsed = rw (h, parsed, compatible) (refl, refl, refl)

  -- The plain text of a number is read as the number.
  plain_read :
      (n : F)
      → IsPositional
      → IsWritten n
      → (is_decimal_characters (to_plain_decimal (env.text_of n)) ≡ true)
        × (env.parsing.number_of (to_plain_decimal (env.text_of n)) ≡ n)
  plain_read n positional written = elim written.form [
    | inl plain ↦
        (let same = to_plain_decimal_of_lacking (env.text_of n) plain in
          (
            ap is_decimal_characters same ∙ written.decimal,
            ap env.parsing.number_of same ∙ written.read_back,
          ))
    | inr (r, shape, e) ↦ (
      ap (λ t. is_decimal_characters (to_plain_decimal t)) e
          ∙ to_plain_decimal-is_decimal_characters r shape,
      ap (λ t. env.parsing.number_of (to_plain_decimal t)) e
          ∙ ap env.parsing.number_of (to_plain_decimal-scientific_text r shape)
          ∙ positional r (places r) shape (places-ArePlaces r shape)
          ∙ ap env.parsing.number_of (sym e)
          ∙ written.read_back,
    )
  ]

  number-IsRead :
      (default : JsValue F) (n : F) (type : Text) (c : ℕ) (s : Text)
      → encode_number env n ≡ returns (record { type = type; value = c ∷ s })
      → type_of default ≡ codes "number"
      → IsPositional
      → IsWritten n
      → IsRead default (num n) (record { type = type; value = c ∷ s })
  unfolding encode_number
  number-IsRead default n type c s h same positional written =
      let encoded =
        encoded-IsEncodedNumber (env.parsing.is_finite n) (env.is_integer n) (env.is_safe_integer n)
          (env.text_of n) (to_plain_decimal (env.text_of n)) _ h in
      elim encoded.1 [
        | inl (integer, text, truth) ↦ elim written.whole [
          | inl fractional ↦ (let clash : true ≡ false = sym truth ∙ fractional in cc)
          | inr truncated ↦
              subst (λ t. IsRead default (num n) (record { type = t; value = c ∷ s })) (sym integer)
                (integer-IsRead default n c s same (ap is_decimal_characters text ∙ written.decimal)
                  (ap env.parsing.number_of text ∙ written.read_back) encoded.0 truncated)
        ]
        | inr (float, text) ↦
            (let plain = plain_read n positional written in
              subst (λ t. IsRead default (num n) (record { type = t; value = c ∷ s })) (sym float)
                (float-IsRead default n c s same (ap is_decimal_characters text ∙ plain.0)
                  (ap env.parsing.number_of text ∙ plain.1) encoded.0))
      ]

  composite-IsRead :
      (default : JsValue F) (v : Value F) (type : Text) (c : ℕ) (s : Text)
      → encode_json env v ≡ returns (record { type = type; value = c ∷ s })
      → type_of default ≡ codes "object"
      → is_json_type_compatible v default ≡ true
      → env.parsing.parse_json (env.stringify v) ≡ some v
      → IsRead default v (record { type = type; value = c ∷ s })
  composite-IsRead default v type c s h same compatible back =
      let encoded = encoded_json (is_json_contents env v) (env.stringify v) _ h in
      subst (λ t. IsRead default v (record { type = t; value = c ∷ s })) (sym encoded.0)
        (json-IsRead default v c s same compatible (ap env.parsing.parse_json encoded.1 ∙ back))

  accepted-IsRead :
      (v : Value F) (default : JsValue F) (type : Text) (c : ℕ) (s : Text)
      → encode env (json v) ≡ returns (record { type = type; value = c ∷ s })
      → type_of default ≡ type_of (json v)
      → json_shape_of default ≡ json_shape_of (json v)
      → IsPositional
      → IsDocumented v
      → IsRead default v (record { type = type; value = c ∷ s })
  unfolding encode type_of is_json_type_compatible
  accepted-IsRead null default type c s h same shape positional back = cc
  accepted-IsRead (bool b) default type c s h same shape positional back =
      subst (IsRead default (bool b)) (returns-injective _ _ h) (bool-IsRead default b same)
  accepted-IsRead (num n) default type c s h same shape positional back =
      number-IsRead default n type c s h same positional back
  accepted-IsRead (str t) default type c s h same shape positional back =
      let e = returns-injective _ _ h in
      subst (λ u. IsRead default (str u) (record { type = type; value = c ∷ s }))
        (sym (ap (λ (x : EncodedNativeValue). x.value) e))
        (subst (λ u. IsRead default (str (c ∷ s)) (record { type = u; value = c ∷ s }))
          (ap (λ (x : EncodedNativeValue). x.type) e) (string-IsRead default c s same))
  accepted-IsRead (arr vs) default type c s h same shape positional back =
      composite-IsRead default (arr vs) type c s h same
        (rw shape (text_eq_refl (json_shape_of (json (arr vs))))) back
  accepted-IsRead (obj fs) default type c s h same shape positional back =
      composite-IsRead default (obj fs) type c s h same
        (rw shape (text_eq_refl (json_shape_of (json (obj fs))))) back

  -- A value of the offline mode that is accepted, and whose text is not empty, is the value of its config
  -- for each default value of the same type, numbers included that JavaScript writes with an exponent, which
  -- is written out; if `String`, `Number` and `JSON` write and read as they are documented to do.
  pub parse_config_value-encode_native_value :
      (key : Text) (v : Value F) (default : JsValue F) (type : Text) (c : ℕ) (s : Text)
      → encode_native_value env key (json v) ≡ returns (record { type = type; value = c ∷ s })
      → type_of default ≡ type_of (json v)
      → json_shape_of default ≡ json_shape_of (json v)
      → IsPositional
      → IsDocumented v
      → IsRead default v (record { type = type; value = c ∷ s })
  unfolding encode_native_value
  parse_config_value-encode_native_value key v default type c s h same shape positional back =
      accepted-IsRead v default type c s (not_refused (is_blank key) _ _ h) same shape positional
        back
