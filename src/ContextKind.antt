-- ===== src/ContextKind.antt =====
-- The kind of a context: packages/shared/src/context-kind.ts
pub mod Admission
pub mod Tests
use js_sdks.Common.{
  ℕ, zero, suc, Bool, true, false, not, ◌&&◌, ◌||◌, Option, none, some, List, [], ◌∷◌, Text, length,
  leb, ltb, all, ◌==◌, is_digit, if◌then◌else◌,
}
use js_sdks.Telemetry.Utf8.{is_high_surrogate, is_low_surrogate}

-- A kind that an application gives: none or null, a string, or another value by its string form.
pub data Kind : Type 0 where
  not_given : Kind
  text : Text → Kind
  other : Text → Kind

pub data ContextAdmission : Type 0 where
  admitted : ContextAdmission
  ignored : Text → ContextAdmission

abbrev pub maximum_length : ℕ
maximum_length = 64

abbrev pub sample_maximum_characters : ℕ
sample_maximum_characters = 128

unfoldable pub is_context_kind_character : ℕ → Bool
is_context_kind_character c =
    (leb b'a' c && leb c b'z') || (leb b'0' c && leb c b'9') || (c == b'-') || (c == b'_')

-- The loop reads characters; a pair of surrogates is one, and not one of a kind.
unfoldable pub is_valid_context_kind : Text → Bool
is_valid_context_kind kind =
    if ltb (length kind) 1 || ltb maximum_length (length kind)
    then false
    else all is_context_kind_character kind

unfoldable pub is_accepted_kind : Kind → Bool
is_accepted_kind not_given = true
is_accepted_kind (text kind) = is_valid_context_kind kind
is_accepted_kind (other form) = false

unfoldable pub string_form_of : Kind → Text
string_form_of not_given = []
string_form_of (text kind) = kind
string_form_of (other form) = form

-- `firstCharactersOf`: as many characters of the text, each of one unit or a pair of surrogates.
unfoldable pub first_characters_of : ℕ → Text → Text
first_characters_of zero s = []
first_characters_of (suc n) [] = []
first_characters_of (suc n) (c ∷ []) = c ∷ []
first_characters_of (suc n) (c ∷ d ∷ s) =
    let pair = first_characters_of n s in
    let single = first_characters_of n (d ∷ s) in
    if is_high_surrogate c && is_low_surrogate d then c ∷ d ∷ pair else c ∷ single

unfoldable pub admit_context : Kind → ContextAdmission
admit_context kind =
    if is_accepted_kind kind
    then admitted
    else ignored (first_characters_of sample_maximum_characters (string_form_of kind))
