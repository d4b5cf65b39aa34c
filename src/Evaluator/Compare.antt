-- ===== src/Evaluator/Compare.antt =====
-- The operators of targeting conditions, one function for each type of target:
-- packages/config-evaluator/src/{text,numeric,date,semver,array}-comparison.ts
-- An operator that is not a string makes `toLowerCase` throw.
pub mod Laws
pub mod Negation
use js_sdks.Common.{
  Bool, true, false, not, ◌&&◌, ◌||◌, Option, none, some, List, [], ◌∷◌, map, Text, codes, text_eq,
  includes, starts_with, ends_with, lower, is_blank, is_decimal_characters, head?, any,
  if◌then◌else◌, Fallible, returns, throws, ◌>>=◌, string_or_throw,
}
use js_sdks.Evaluator.Value.{
  Value, null, bool, num, str, arr, obj, items, Items, Externals, is_scalar, render_scalar,
}

-- `operator.toLowerCase()`.
unfoldable pub lowercase_operator : Option Text → Fallible Text
lowercase_operator operator = do name ← string_or_throw operator; returns (lower name)

-- `first !== undefined && test(first)`.
abbrev pub holds_of {ℓ} : {A : Type ℓ} → (A → Bool) → Option A → Bool
holds_of test none = false
holds_of test (some a) = test a

abbrev pub is_any_of : Text → List Text → Bool
is_any_of s names = includes names s

unfoldable pub text_test : Text → Text → List Text → Bool
text_test operator value targets =
    if is_any_of operator (codes "=" ∷ codes "equals" ∷ [])
    then holds_of (text_eq value) (head? targets)
    else if is_any_of operator (codes "!=" ∷ codes "does not equal" ∷ [])
    then holds_of (λ first. not (text_eq value first)) (head? targets)
    else if text_eq operator (codes "is one of")
    then includes targets value
    else if text_eq operator (codes "is not one of")
    then not (includes targets value)
    else if text_eq operator (codes "starts with any of")
    then any (λ target. starts_with target value) targets
    else if text_eq operator (codes "does not start with any of")
    then not (any (λ target. starts_with target value) targets)
    else if text_eq operator (codes "ends with any of")
    then any (λ target. ends_with target value) targets
    else if text_eq operator (codes "does not end with any of")
    then not (any (λ target. ends_with target value) targets)
    else false

unfoldable pub compare_text : Text → Option Text → List Text → Fallible Bool
compare_text value operator targets = do
  name ← lowercase_operator operator
  returns (text_test name value targets)

unfoldable pub elements_contain : List Text → List Text → Bool
elements_contain elements targets = any (λ element. includes targets element) elements

module _ {F V : Type 0} (env : Externals F V) where
  unfoldable pub finite_or_none : F → Option F
  finite_or_none n = if env.is_finite n then some n else none

  unfoldable pub parse_finite_text : Text → Option F
  parse_finite_text [] = none
  parse_finite_text (c ∷ s) =
      if is_decimal_characters (c ∷ s) then finite_or_none (env.number_of (c ∷ s)) else none

  unfoldable pub parse_finite : Option (Value F) → Option F
  parse_finite (some (num n)) = finite_or_none n
  parse_finite (some (str s)) = parse_finite_text s
  parse_finite _ = none

  unfoldable pub numeric_test : Text → F → F → Bool
  numeric_test operator value target =
      if is_any_of operator (codes "=" ∷ codes "equals" ∷ [])
      then env.num_eq value target
      else if is_any_of operator (codes "!=" ∷ codes "does not equal" ∷ [])
      then not (env.num_eq value target)
      else if text_eq operator (codes "<")
      then env.num_lt value target
      else if text_eq operator (codes "<=")
      then env.num_le value target
      else if text_eq operator (codes ">")
      then env.num_lt target value
      else if text_eq operator (codes ">=")
      then env.num_le target value
      else false

  -- The target of a numeric comparison, `parseFinite(targetValues[0])`.
  unfoldable pub parse_first : List Text → Option F
  parse_first [] = none
  parse_first (first ∷ _) = parse_finite (some (str first))

  unfoldable pub compare_numeric : Option (Value F) → Option Text → List Text → Fallible Bool
  compare_numeric given operator targets = do
    name ← lowercase_operator operator
    returns (elim (parse_finite given) [
      | none ↦ is_any_of name (codes "!=" ∷ codes "does not equal" ∷ [])
      | some value ↦ holds_of (numeric_test name value) (parse_first targets)
    ])

  unfoldable pub date_test : Text → F → F → Bool
  date_test operator value target =
      if text_eq operator (codes "is after")
      then env.num_lt target value
      else if text_eq operator (codes "is before")
      then env.num_lt value target
      else false

  -- The operator is compared as it is given, and one that is not a string equals none.
  unfoldable pub compare_date : Text → Option Text → List Text → Bool
  compare_date value operator [] = false
  compare_date value operator (first ∷ _) =
      holds_of
        (λ date_value.
          holds_of
            (λ date_target. holds_of (λ name. date_test name date_value date_target) operator)
            (env.iso_millis first))
        (env.iso_millis value)

  -- `equals` and `ordered`: an operand that could not be coerced satisfies nothing.
  unfoldable pub both_hold : (V → V → Bool) → Option V → Option V → Bool
  both_hold test value target = holds_of (λ v. holds_of (test v) target) value

  abbrev pub first_version : List Text → Option V
  first_version [] = none
  first_version (first ∷ _) = env.coerce_version first

  unfoldable pub semver_test : Text → Option V → List Text → Bool
  semver_test operator version targets =
      if text_eq operator (codes "=")
      then both_hold env.version_eq version (first_version targets)
      else if text_eq operator (codes "<")
      then both_hold env.version_lt version (first_version targets)
      else if text_eq operator (codes "<=")
      then both_hold env.version_lte version (first_version targets)
      else if text_eq operator (codes ">")
      then both_hold env.version_gt version (first_version targets)
      else if text_eq operator (codes ">=")
      then both_hold env.version_gte version (first_version targets)
      else if text_eq operator (codes "is one of")
      then any (λ target. both_hold env.version_eq version (env.coerce_version target)) targets
      else if text_eq operator (codes "is not one of")
      then not
          (any (λ target. both_hold env.version_eq version (env.coerce_version target)) targets)
      else false

  unfoldable pub compare_semver : Text → Option Text → List Text → Fallible Bool
  compare_semver value operator targets = do
    name ← lowercase_operator operator
    returns (
        if is_blank value
        then text_eq name (codes "is not one of")
        else semver_test name (env.coerce_version value) targets)

  -- `givenValue.filter(isScalar).map(renderScalar)`.
  unfoldable pub scalar_elements : List (Value F) → List Text
  scalar_elements [] = []
  scalar_elements (v ∷ vs) =
      if is_scalar v then render_scalar env v ∷ scalar_elements vs else scalar_elements vs

  unfoldable pub array_test : Text → List Text → List Text → Bool
  array_test operator elements targets =
      if text_eq operator (codes "contains any of")
      then elements_contain elements targets
      else if text_eq operator (codes "does not contain any of")
      then not (elements_contain elements targets)
      else false

  unfoldable pub array_or_none : Option (Value F) → Option (List (Value F))
  array_or_none (some (arr vs)) = some (items vs)
  array_or_none _ = none

  unfoldable pub compare_array : Option (Value F) → Option Text → List Text → Fallible Bool
  compare_array given operator targets = do
    name ← lowercase_operator operator
    returns (elim (array_or_none given) [
      | none ↦ text_eq name (codes "does not contain any of")
      | some vs ↦ array_test name (scalar_elements vs) targets
    ])
