-- ===== src/Evaluator/Pointer.antt =====
-- packages/config-evaluator/src/json-pointer.ts
pub mod Escapes
use js_sdks.Common.{
  ℕ, Bool, true, false, not, ◌&&◌, ◌||◌, Option, none, some, List, [], ◌∷◌, Text, text_eq, ◌==◌,
  leb, is_digit, parse_decimal, all, get_elem?, if◌then◌else◌,
}
use js_sdks.Evaluator.Value.{
  Value, null, bool, num, str, arr, obj, Items, items, Fields, end, field,
}

abbrev pub tilde : ℕ
tilde = b'~'

abbrev pub slash : ℕ
slash = b'/'

-- `/~(?![01])/.test(token)`: a tilde that neither 0 nor 1 follows.
unfoldable pub has_invalid_escape : Text → Bool
has_invalid_escape [] = false
has_invalid_escape (c ∷ []) = c == tilde
has_invalid_escape (c ∷ d ∷ s) =
    ((c == tilde) && not ((d == b'0') || (d == b'1'))) || has_invalid_escape (d ∷ s)

-- `token.replace(/~d/g, r)` for one digit `d` and one character `r`.
unfoldable pub replace_escape : ℕ → ℕ → Text → Text
replace_escape digit r [] = []
replace_escape digit r (c ∷ []) = c ∷ []
replace_escape digit r (c ∷ d ∷ s) =
    let replaced = r ∷ replace_escape digit r s in
    let kept = c ∷ replace_escape digit r (d ∷ s) in
    if (c == tilde) && (d == digit) then replaced else kept

unfoldable pub decode_reference_token : Text → Option Text
decode_reference_token token =
    if has_invalid_escape token
    then none
    else some (replace_escape b'0' tilde (replace_escape b'1' slash token))

-- `ARRAY_INDEX_PATTERN.test(token)`: no leading zero.
unfoldable pub is_array_index : Text → Bool
is_array_index [] = false
is_array_index (c ∷ []) = is_digit c
is_array_index (c ∷ d ∷ s) = (leb b'1' c && leb c b'9') && all is_digit (d ∷ s)

-- An own member of an object, by its name.
unfoldable pub member : {F : Type 0} → Text → Fields F → Option (Value F)
member name end = none
member name (field k v fs) = if text_eq k name then some v else member name fs

-- `step`, of a value that is there. An array holds the indices below its length.
unfoldable pub step : {F : Type 0} → Value F → Text → Option (Value F)
unfolding member is_array_index
step (arr vs) token =
    if is_array_index token then get_elem? (items vs) (parse_decimal 0 token) else none
step (obj fs) token = member token fs
step _ token = none

abbrev pub step_option : {F : Type 0} → Option (Value F) → Text → Option (Value F)
step_option none token = none
step_option (some v) token = step v token

-- The loop over the encoded tokens.
unfoldable pub resolve_tokens : {F : Type 0} → List Text → Option (Value F) → Option (Value F)
resolve_tokens [] current = current
resolve_tokens (encoded ∷ tokens) current = elim (decode_reference_token encoded) [
  | none ↦ none
  | some token ↦ elim (step_option current token) [
    | none ↦ none
    | some next ↦ resolve_tokens tokens (some next)
  ]
]

abbrev cons_head : ℕ → List Text → List Text
cons_head c [] = (c ∷ []) ∷ []
cons_head c (part ∷ parts) = (c ∷ part) ∷ parts

-- `s.split("/")`.
unfoldable pub split_slash : Text → List Text
split_slash [] = [] ∷ []
split_slash (c ∷ s) =
    let parts = split_slash s in if c == slash then [] ∷ parts else cons_head c parts

-- `resolveJsonPointer`; `none` is `undefined`.
unfoldable pub resolve_json_pointer : {F : Type 0} → Text → Option (Value F) → Option (Value F)
resolve_json_pointer [] document = document
resolve_json_pointer (c ∷ pointer) document =
    if c == slash then resolve_tokens (split_slash pointer) document else none
